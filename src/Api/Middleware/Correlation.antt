-- ===== src/Api/Middleware/Correlation.antt =====
-- The correlation id of a request through flydesk/common/middleware.py.
use mathlib.Core.Path.{subst}
use fly_desk.Prelude.{arith, ℕ, ◌≡◌, refl, sym, ap, ◌∙◌, String, Option, none, some, List, [], ◌∷◌}
use fly_desk.Prelude.Dicts.{lookup, lookup-insert}
use fly_desk.Errors.{Outcome, returned, raised}
use fly_desk.Errors.Actions.{Action}
use fly_desk.Bookings.Service.{truthy}
use fly_desk.Api.Middleware.{
  correlation_header, HttpRequest, HttpResponse, Context, logged_id, id_of, echo, correlate,
}

-- A response, if there is one, carries the id.
abbrev pub Echoed : String → Outcome HttpResponse → Type 0
Echoed cid (returned r) = lookup correlation_header r.headers ≡ some cid
Echoed cid (raised e) = Unit

-- What the client gets is the application's answer with one header more, or its exception.
abbrev pub SameEnd : Outcome HttpResponse → Outcome HttpResponse → Type 0
SameEnd (returned a) (returned r) = a.status_code ≡ r.status_code
SameEnd (raised e) (raised e') = e ≡ e'
SameEnd (returned a) (raised e) = ⊥
SameEnd (raised e) (returned r) = ⊥

truthy-truthy : (o : Option String) (c : String) → truthy o ≡ some c → truthy (some c) ≡ some c
unfolding truthy
truthy-truthy none c h = cc
truthy-truthy (some k) c h = ground (arith)

module _ {E : Type 0} (uuid4 : E → String × E) (clock : E → ℕ)
    (get_response : HttpRequest → Action (Context E) HttpResponse) where
  echo-Echoed :
      (cid : String) (res : Outcome HttpResponse)
      → Echoed cid (echo uuid4 clock get_response cid res)
  echo-Echoed cid (returned r) = lookup-insert correlation_header correlation_header cid r.headers
  echo-Echoed cid (raised e) = tt

  echo-SameEnd :
      (cid : String) (res : Outcome HttpResponse)
      → SameEnd (echo uuid4 clock get_response cid res) res
  echo-SameEnd cid (returned r) = refl
  echo-SameEnd cid (raised e) = refl

  id_of-given :
      (request : HttpRequest) (env : E) (cid : String)
      → truthy (lookup correlation_header request.headers) ≡ some cid
      → id_of uuid4 clock get_response request env ≡ (cid, env)
  unfolding id_of
  id_of-given request env cid given = rw (id_of, given)

  logged_own :
      (cid : String) (s : Context E)
      → truthy (some cid) ≡ some cid
      → logged_id (record s { correlation_id = some cid }) ≡ cid
  unfolding logged_id
  logged_own cid s h = rw (logged_id, h)

  -- A sequence of requests, one after another on one thread.
  pub serve_all : List HttpRequest → Context E → Context E
  serve_all [] s = s
  serve_all (request ∷ rest) s = serve_all rest (correlate uuid4 clock get_response request s).1

  serve_all-id :
      (requests : List HttpRequest) (s : Context E)
      → (serve_all requests s).correlation_id ≡ s.correlation_id
  unfolding serve_all correlate
  serve_all-id [] s = refl
  serve_all-id (request ∷ rest) s =
      serve_all-id rest (correlate uuid4 clock get_response request s).1

  -- A request with an id in its header is answered with that id, whatever the application does. The
  -- application gets the request with that id, in a context in which log records carry it and that is
  -- otherwise as it was; what it does to the context is kept, but for the id. However many requests
  -- came before and however they ended, with an exception too, none leaves its id behind.
  pub correlate_lem :
      (before : List HttpRequest) (request : HttpRequest) (s : Context E) (cid : String)
      → truthy (lookup correlation_header request.headers) ≡ some cid
      → let s1 = serve_all before s in
        let (answer, after) = correlate uuid4 clock get_response request s1 in
        (q : HttpRequest) × (inside : Context E) × (q
          ≡ record request { correlation_id = some cid })
        × (logged_id inside ≡ cid)
        × (inside.samples ≡ s1.samples)
        × (inside.env ≡ s1.env)
        × Echoed cid answer
        × (SameEnd answer (get_response q inside).0)
        × (after ≡ record (get_response q inside).1 { correlation_id = s.correlation_id })
  unfolding correlate
  correlate_lem before request s cid given =
      let s1 = serve_all before s in
      let inside : Context E = record s1 { correlation_id = some cid } in
      let q : HttpRequest = record request { correlation_id = some cid } in
      let given_id = id_of-given request s1.env cid given in
      (
        q,
        inside,
        refl,
        logged_own cid s1 (truthy-truthy (lookup correlation_header request.headers) cid given),
        refl,
        refl,
        subst (λ (x : String × E). Echoed cid (run x s1).0) (sym given_id)
            (echo-Echoed cid (get_response q inside).0),
        subst (λ (x : String × E). SameEnd (run x s1).0 (get_response q inside).0) (sym given_id)
            (echo-SameEnd cid (get_response q inside).0),
        ap (λ (x : String × E). (run x s1).1) given_id
            ∙ ap (λ i. record (get_response q inside).1 { correlation_id = i })
                (serve_all-id before s),
      )
    where
      run : String × E → Context E → Outcome HttpResponse × Context E
      run (cid, env) s1 =
          let (res, s2) =
            get_response (record request { correlation_id = some cid })
              (record s1 { correlation_id = some cid; env = env }) in
          (echo uuid4 clock get_response cid res, record s2 { correlation_id = s1.correlation_id })
