-- ===== src/Objects.antt =====
-- The reconcilers of objects that live in OpenSearch, and the part of
-- opensearch-gateway/services/os_security_service.go that is the same for all of them.
pub mod Finish
pub mod Statuses
pub mod Managed
pub mod Role
pub mod Tenant
pub mod ActionGroup
pub mod Binding
pub mod User
use opensearch_k8s_operator.Prelude.{
  ℕ, Bool, true, false, not, Option, none, some, List, [], ◌∷◌, String, ◌==◌, ltb, nat_eq,
  if◌then◌else◌,
}
use opensearch_k8s_operator.Api.{Error, not_found, conflict, panic, api, failed, Cluster}
use opensearch_k8s_operator.Api.Objects.{
  Body, ObjectStatus, Object, Secret, object_put, object_removed, object_status_put,
}
use opensearch_k8s_operator.Exec.{
  written, History, Result, ok, err, M, pure, ◌>>=◌, ◌>>◌, query, command, unless, on_conflict,
}

-- An answer of the security API. The decoder of its body, a map from names to objects, is a library.
pub record Response : Type 0 where
  pub status_code : ℕ
  pub bodies : Result Error (List (String × Body))

-- The calls that these reconcilers make, answered as those of Services are.
pub record ObjectServices (S : Type 0) : Type 0 where
  pub get_cluster : History → String → Result Error Cluster
  pub get_object : History → Result Error (Object S)
  pub put_object_status : History → ObjectStatus → Option Error
  pub get_secret : History → String → Result Error Secret
  -- CreateSecret, which applies the secret
  pub put_secret : History → Secret → Option Error
  -- what the secret is for the caller after that; the server may have set its resource version
  pub applied_secret : History → Secret → Secret
  -- CreateClientForCluster
  pub create_client : History → Option Error
  -- GetSecurityResource, PutSecurityResource and DeleteSecurityResource: the resource and the name
  pub get_security : History → String → String → Result Error Response
  pub put_security : History → String → String → Body → Result Error Response
  pub delete_security : History → String → String → Result Error Response
  -- cmp.Equal with EquateEmpty
  pub equal : Body → Body → Bool
  -- The text of an error.
  pub error_text : Error → String

abbrev pub bad_answer : Error
bad_answer = api "response from API is an error"

-- IsError of opensearchapi.Response
abbrev pub is_error : Response → Bool
is_error r = ltb 299 r.status_code

-- A name that the answer does not hold gives the zero value of Go.
unfoldable pub named : Body → String → List (String × Body) → Body
named zero_body n [] = zero_body
named zero_body n ((m, b) ∷ bs) = if m == n then b else named zero_body n bs

unfoldable pub exists_of : Result Error Response → Result Error Bool
exists_of (err e) = err e
exists_of (ok r) =
    if nat_eq r.status_code 404 then ok false else if is_error r then err bad_answer else ok true

abbrev body_differs :
    (Body → Body → Bool)
    → Body
    → String
    → Body
    → Result Error (List (String × Body))
    → Result Error Bool
body_differs equal zero_body name body (err e) = err e
body_differs equal zero_body name body (ok bodies) =
    ok (not (equal body (named zero_body name bodies)))

unfoldable pub should_update_of :
    (Body → Body → Bool) → Body → String → Body → Result Error Response → Result Error Bool
should_update_of equal zero_body name body (err e) = err e
should_update_of equal zero_body name body (ok r) =
    if nat_eq r.status_code 404
    then ok true
    else if is_error r
    then err bad_answer
    else body_differs equal zero_body name body r.bodies

-- The error of a write, which an answer of the API may be.
unfoldable pub write_error : Result Error Response → Option Error
write_error (err e) = some e
write_error (ok r) = if is_error r then some bad_answer else none

-- A missing cluster is no error.
abbrev pub fetched : Result Error Cluster → Result Error (Option Cluster)
fetched (ok c) = ok (some c)
fetched (err not_found) = ok none
fetched (err conflict) = err conflict
fetched (err panic) = err panic
fetched (err (api s)) = err (api s)
fetched (err (failed s)) = err (failed s)

module _ {S : Type 0} (sv : ObjectServices S) where
  abbrev pub object_exists : String → String → M Bool
  object_exists resource name =
      query "GetSecurityResource" (λ h. exists_of (sv.get_security h resource name))

  abbrev pub should_update_object : String → Body → String → Body → M Bool
  should_update_object resource zero_body name body =
      query "GetSecurityResource"
        (λ h. should_update_of sv.equal zero_body name body (sv.get_security h resource name))

  abbrev pub create_or_update_object : String → String → Body → M (Unit {0})
  create_or_update_object resource name body =
      command (written (object_put resource name body))
        (λ h. write_error (sv.put_security h resource name body))

  abbrev pub delete_object : String → String → M (Unit {0})
  delete_object resource name =
      command (written (object_removed resource name))
        (λ h. write_error (sv.delete_security h resource name))

  abbrev pub fetch_opensearch_cluster : String → M (Option Cluster)
  fetch_opensearch_cluster name =
      query "GetOpenSearchCluster" (λ h. fetched (sv.get_cluster h name))

  abbrev pub create_client : M (Unit {0})
  create_client = query "CreateClientForCluster" (λ h. unless (sv.create_client h))

  abbrev pub put_status : ObjectStatus → M (Unit {0})
  put_status status =
      command (written (object_status_put status)) (λ h. sv.put_object_status h status)

  -- UdateObjectStatus, which Go reads afresh into the caller's object.
  unfoldable pub try_object_status : (Object S → ObjectStatus) → M (Object S)
  try_object_status f = do
    fresh ← query "Get" sv.get_object
    put_status (f fresh)
    pure (record fresh { status = f fresh })

  unfoldable pub update_object_status : (Object S → ObjectStatus) → M (Object S)
  update_object_status f = on_conflict 4 (try_object_status f)
