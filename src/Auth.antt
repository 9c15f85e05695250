-- ===== src/Auth.antt =====
-- Authentication/WrongthinkTokenAuthenticator.*: credentials in the metadata of a call.
pub mod Credentials
use wrongthink.Base.{
  ℕ, String, Bool, true, false, Option, none, some, List, [], ◌∷◌, ◌++◌, filter, length, find?,
  ◌==◌, str_eq, if◌then◌else◌,
}
use wrongthink.Proto.{Status, ok_status, WrongthinkUser}

-- A multimap of keys and values. Entries of one key keep the order in which they were inserted, and
-- `find` gives the first.
abbrev pub Metadata : Type 0
Metadata = List (String × String)

abbrev pub auth_uname_key : String
auth_uname_key = "auth-uname"

abbrev pub auth_token_key : String
auth_token_key = "auth-token"

abbrev pub has_key : String → String × String → Bool
has_key key (k, v) = str_eq key k

abbrev pub count : String → Metadata → ℕ
count key m = length (filter (has_key key) m)

abbrev pub value_of : Option (String × String) → Option String
value_of none = none
value_of (some (k, v)) = some v

abbrev pub find : String → Metadata → Option String
find key m = value_of (find? (has_key key) m)

abbrev pub insert : String → String → Metadata → Metadata
insert key value m = m ++ (key, value) ∷ []

unfoldable pub has_credentials : Metadata → Bool
has_credentials cmeta =
    if count auth_uname_key cmeta == 0
    then false
    else if count auth_token_key cmeta == 0
    then false
    else true

abbrev pub both : Option String → Option String → Option (String × String)
both (some s1) (some s2) = some (s1, s2)
both _ _ = none

-- `none` where the source reads through the end iterator.
unfoldable pub get_credentials : Metadata → Option (String × String)
get_credentials cmeta = both (find auth_uname_key cmeta) (find auth_token_key cmeta)

unfoldable pub add_credentials : WrongthinkUser → Metadata → Metadata
add_credentials user m = insert auth_token_key user.token (insert auth_uname_key user.uname m)

-- WrongthinkClientTokenPlugin
pub record ClientTokenPlugin : Type 0 where
  pub uname : String
  pub token : String

unfoldable pub get_metadata : ClientTokenPlugin → Metadata → Status × Metadata
get_metadata p m = (ok_status, insert auth_token_key p.token (insert auth_uname_key p.uname m))

-- The properties of the context, the consumed metadata and the response metadata.
pub record Processed : Type 0 where
  pub properties : Metadata
  pub consumed : Metadata
  pub response : Metadata

unfoldable pub consume : Metadata → Processed → Processed
consume [] p = p
consume ((key, value) ∷ rest) p = consume rest (record p {
  properties = insert key value p.properties;
  consumed = insert key value p.consumed;
})

-- WrongthinkAuthMetadataProcessor::Process
unfoldable pub process : Metadata → Processed → Status × Processed
unfolding consume
process auth_metadata p = (ok_status, consume auth_metadata p)
