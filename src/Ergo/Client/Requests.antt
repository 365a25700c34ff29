-- ===== src/Ergo/Client/Requests.antt =====
-- When a request to the node succeeds.
use Prim.Native.String.{◌++◌ as append}
use rosetta_ergo.Base.{
  String, none, [], ◌∷◌, ◌≡◌, ◌↔◌, Result, ok, >>=-eq-ok, wrap_with-eq-ok, wrap_with-ok, eq_ℤ,
  eq_ℤ_iff, Bool-cases, Option-cases, inl, inr,
}
use rosetta_ergo.Ergo.Client.{
  Client, HttpRequest, HttpResponse, node_api_token, status_ok, read_response, make_request,
}

-- The request that `make_request` sends.
abbrev pub request : Client → String → String → HttpRequest
request e endpoint method = record {
  method = method;
  url = append e.base_url (append "/" endpoint);
  headers = ("Content-Type", "application/json") ∷ ("api_key", node_api_token) ∷ [];
}

-- A response with status 200 whose body was read, and decodes to `a`.
pub record IsGood {A : Type 0} (decode : String → Result A) (res : HttpResponse) (a : A)
    : Type 0 where
  pub is_ok : res.status_code ≡ status_ok
  pub is_read : res.read_error ≡ none
  pub is_decoded : decode res.body ≡ ok a

read_response-IsGood :
    {A : Type 0} (decode : String → Result A) (res : HttpResponse) (a : A)
    → read_response decode res ≡ ok a
    → IsGood decode res a
unfolding read_response
read_response-IsGood decode res a h = elim (Bool-cases (eq_ℤ res.status_code status_ok)) [
  | inr bad ↦ cc (rw bad at h)
  | inl good ↦ elim (Option-cases res.read_error) [
    | inr (e, failed) ↦ cc (rw (good, failed) at h)
    | inl read ↦ record {
      is_ok = (eq_ℤ_iff res.status_code status_ok).0 good;
      is_read = read;
      is_decoded = wrap_with-eq-ok (decode res.body) _ _ (rw (good, read) at h);
    }
  ]
]

read_response_ok :
    {A : Type 0} (decode : String → Result A) (res : HttpResponse) (a : A)
    → IsGood decode res a
    → read_response decode res ≡ ok a
unfolding read_response
read_response_ok decode res a g =
    rw ((eq_ℤ_iff res.status_code status_ok).1 g.is_ok, read_response)
      (rw g.is_read (wrap_with-ok (decode res.body) _ _ g.is_decoded))

-- A request returns a value exactly when its URL is valid, the node answers the request for that
-- URL and method with the API's token, the status is 200, the body can be read, and it decodes to
-- the value.
pub make_request_exact :
    {A : Type 0} (e : Client) (endpoint method : String) (decode : String → Result A) (a : A)
    → make_request e endpoint method decode ≡ ok a ↔ (
        (e.network.parse_url (request e endpoint method).url ≡ ok tt)
        × (res : HttpResponse) × (e.network.send (request e endpoint method) ≡ ok res)
        × IsGood decode res a)
unfolding make_request
make_request_exact e endpoint method decode a = (
  λ h.
      let (u, parsed, h₁) = >>=-eq-ok _ _ h in
      let (res, sent, h₂) = >>=-eq-ok _ _ h₁ in
      (
        wrap_with-eq-ok (e.network.parse_url (request e endpoint method).url) _ _ parsed,
        res,
        wrap_with-eq-ok (e.network.send (request e endpoint method)) _ _ sent,
        read_response-IsGood decode res a h₂,
      ),
  λ (parsed, res, sent, good). rw parsed (rw sent (read_response_ok decode res a good)),
)
