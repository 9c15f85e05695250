-- ===== src/Auth/Credentials.antt =====
-- Credentials that a client adds are the ones that the server finds.
use mathlib.Core.List.{append_assoc, append-nil}
use wrongthink.Base.{
  String, true, false, some, [], ◌∷◌, ◌++◌, ◌≡◌, refl, ap, ◌∙◌, arith, any, find?, any-append,
  find?-append_none, find?-any-true, length-filter_zero, if◌then◌else◌,
}
use wrongthink.Proto.{WrongthinkUser, Status, ok_status}
use wrongthink.Auth.{
  Metadata, auth_uname_key, auth_token_key, has_key, value_of, find, has_credentials,
  get_credentials, add_credentials, get_metadata, Processed, process, consume,
}

-- The test of `hasCredentials`, by both keys.
pub has_credentials-eq :
    (m : Metadata)
    → has_credentials m
      ≡ (if any (has_key auth_uname_key) m then any (has_key auth_token_key) m else false)
unfolding has_credentials
has_credentials-eq m =
    rw
      (length-filter_zero (has_key auth_uname_key) m, length-filter_zero (has_key auth_token_key) m)
      (ground arith)

value-found :
    (key : String) (m : Metadata)
    → any (has_key key) m ≡ true
    → (v : String) × (find key m ≡ some v)
value-found key m h =
    let ((k, v), found, _) = find?-any-true (has_key key) m h in (v, ap value_of found)

-- Where `hasCredentials` answers true, `getCredentials` reads no end iterator.
pub get_credentials_safe :
    (m : Metadata) → has_credentials m ≡ true → (c : String × String) × (get_credentials m ≡ some c)
unfolding get_credentials
get_credentials_safe m h =
    let tests = has_credentials-eq m in
    let (u, eu) = value-found auth_uname_key m (ground (arith, tests)) in
    let (t, et) = value-found auth_token_key m (ground (arith, tests)) in ((u, t), rw (eu, et))

abbrev added : WrongthinkUser → Metadata
added user = (auth_uname_key, user.uname) ∷ (auth_token_key, user.token) ∷ []

-- Metadata without credentials, to which a user's are added, has them, and gives them back; and so
-- the metadata that the client's plugin writes.
pub get_credentials-add_credentials :
    (user : WrongthinkUser) (m : Metadata)
    → any (has_key auth_uname_key) m ≡ false
    → any (has_key auth_token_key) m ≡ false
    → (has_credentials (add_credentials user m) ≡ true)
      × (get_credentials (add_credentials user m) ≡ some (user.uname, user.token))
      × (get_metadata (record { uname = user.uname; token = user.token }) m
          ≡ (ok_status, add_credentials user m))
unfolding get_credentials add_credentials get_metadata any find?
get_credentials-add_credentials user m hu ht = (
  rw (
    has_credentials-eq (add_credentials user m),
    append_assoc,
    any-append (has_key auth_uname_key) m (added user),
    any-append (has_key auth_token_key) m (added user),
    hu,
    ht,
  ),
  rw (
    append_assoc,
    find?-append_none (has_key auth_uname_key) m (added user) hu,
    find?-append_none (has_key auth_token_key) m (added user) ht,
  ),
  refl,
)

consume_lem :
    (m : Metadata) (p : Processed)
    → consume m p
      ≡ record { properties = p.properties ++ m; consumed = p.consumed ++ m; response = p.response }
unfolding consume
consume_lem [] p = rw (append-nil, append-nil)
consume_lem ((k, v) ∷ m) p = consume_lem m _ ∙ rw (append_assoc, append_assoc)

-- The processor copies all metadata, in order, to the context's properties and to the consumed
-- metadata, and writes no response metadata.
pub process_lem :
    (m : Metadata) (p : Processed)
    → process m p ≡ (
      ok_status,
      record { properties = p.properties ++ m; consumed = p.consumed ++ m; response = p.response },
    )
unfolding process
process_lem m p =
    ap (λ (q : Processed). (let x : Status × Processed = (ok_status, q) in x)) (consume_lem m p)
