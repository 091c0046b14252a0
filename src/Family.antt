-- ===== src/Family.antt =====
-- family/contract/types.go: the records that an adapter describes itself by. A value of any type is a
-- `Json`, a map is the list of its keys with their values, and a nil pointer or value is `none`.
use integration_nfeio.Base.{ℕ, String, Bool, Option, List}
use integration_nfeio.Json.{Json}

pub record AdapterQueue : Type 0 where
  pub describe : String
  pub discover : String
  pub read : String
  pub execute : String
  pub sync : String
  pub health : String

pub record AdapterRoute : Type 0 where
  pub describe : String
  pub execute : String

pub record AdapterSpec : Type 0 where
  pub transport : String
  pub version : String
  pub queues : AdapterQueue
  pub endpoints : AdapterRoute
  pub timeout_seconds : ℕ

pub record SchemaDependency : Type 0 where
  pub field : String
  pub value : Json

pub record SchemaProperty : Type 0 where
  pub type_name : String
  pub description : String
  pub secret : Bool
  pub enum : List Json
  pub default : Option Json
  pub label : String
  pub label_locale : List (String × String)
  pub placeholder : String
  pub placeholder_locale : List (String × String)
  pub description_locale : List (String × String)
  pub group : String
  pub group_locale : List (String × String)
  pub order : ℕ
  pub sensitive : Bool
  pub depends_on : Option SchemaDependency
  pub format : String

pub record SchemaSpec : Type 0 where
  pub mode : String
  pub required : List String
  pub properties : List (String × SchemaProperty)

pub record ResourceType : Type 0 where
  pub name : String
  pub canonical_prefix : String
  pub identity_template : String
  pub discoverable : Bool
  pub default_actions : List String

pub record ActionDefinition : Type 0 where
  pub name : String
  pub description : String
  pub resource_types : List String
  pub idempotent : Bool
  pub category : String

pub record DiscoverySpec : Type 0 where
  pub mode : String
  pub cursor : String
  pub supports_webhooks : Bool

pub record NormalizationSpec : Type 0 where
  pub external_id_path : String
  pub name_path : String
  pub owner_path : String
  pub fallback_resource_prefix : String

pub record ExecutionSpec : Type 0 where
  pub supports_dry_run : Bool
  pub idempotent_actions : List String

pub record ExtensionsSpec : Type 0 where
  pub allow_custom_resource_types : Bool
  pub allow_custom_actions : Bool
  pub preserve_raw_payload : Bool

-- `AdapterDescribeResponse`.
pub record Described : Type 0 where
  pub provider : String
  pub adapter : AdapterSpec
  pub capabilities : List String
  pub credential_schema : SchemaSpec
  pub instance_schema : SchemaSpec
  pub resource_types : List ResourceType
  pub action_catalog : List ActionDefinition
  pub discovery : DiscoverySpec
  pub normalization : NormalizationSpec
  pub execution : ExecutionSpec
  pub extensions : ExtensionsSpec
