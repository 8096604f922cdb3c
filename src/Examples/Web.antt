-- ===== src/Examples/Web.antt =====
-- The theorems on the HTTP layer at sample requests.
use fly_desk.Prelude.{◌≡◌, refl, ap, ℕ, String, Option, none, some, List, [], ◌∷◌}
use fly_desk.Prelude.Dicts.{lookup}
use fly_desk.Errors.{timeout, Outcome, returned, raised}
use fly_desk.Errors.Actions.{Action}
use fly_desk.Bookings.Document.{to_doc}
use fly_desk.Bookings.Service.{truthy}
use fly_desk.Search.FanOut.Asked.{Asked}
use fly_desk.Api.{answered, dispatch}
use fly_desk.Api.Bookings as Orders
use fly_desk.Api.Bookings.{BookingForm}
use fly_desk.Api.Bookings.Twice.{post_twice}
use fly_desk.Api.Searches as Searches
use fly_desk.Api.Middleware.{HttpRequest, HttpResponse, Context, logged_id, correlate}
use fly_desk.Api.Middleware.Correlation.{Echoed, SameEnd, serve_all, correlate_lem}
use fly_desk.Examples.Store.{orders}
use fly_desk.Examples.Fixtures.{ascii, desk, traveller}
use fly_desk.Examples.Booking.{
  quiet, after, booked, none-HoldsNormal, desk-GivesNormal, first_booking,
}
use fly_desk.Examples.Domains as Domains
use fly_desk.Examples.Searched as Searched

abbrev form : String → BookingForm desk
form offer_id = record { offer_id = offer_id; passengers = some traveller ∷ [] }

first_post :
    Orders.post ascii orders desk (λ e. none) (returned (form "off_1")) (some "k1") quiet
    ≡ (answered 201 (to_doc booked), after)
unfolding Orders.post
first_post = ap (dispatch (λ e. none) 201 to_doc) first_booking

post_twice_example :
    (Orders.get ascii orders desk (λ e. none) (to_doc booked).doc_id after
      ≡ (answered 200 (to_doc booked), after))
    × (Orders.post ascii orders desk (λ e. none) (returned (form "off_2")) (some "k1") after
        ≡ (answered 201 (to_doc booked), after))
unfolding truthy
post_twice_example =
    post_twice ascii orders desk (λ e. none) desk-GivesNormal (form "off_1") (form "off_2")
      (some "k1") "k1" quiet after (to_doc booked) none-HoldsNormal refl first_post

abbrev page : Option String → HttpRequest
page cid = record {
  method = "GET";
  path = "/healthz";
  headers = elim cid [ none ↦ [] | some c ↦ ("X-Correlation-ID", c) ∷ [] ];
  correlation_id = none;
  view_name = none;
}

-- An application that answers the requests to which the middleware has given a set id.
abbrev answer : Option String → Outcome HttpResponse
answer none = raised timeout
answer (some c) = returned (record { status_code = 200; headers = [] })

abbrev blank : Context ℕ
blank = record { correlation_id = none; samples = []; env = 0 }

abbrev serve : HttpRequest → Action (Context ℕ) HttpResponse
serve r s = (answer r.correlation_id, s)

correlate_lem_example :
    let s1 = serve_all (λ n. ("fresh", n)) (λ n. n) serve (page none ∷ []) blank in
    let (answer, after) = correlate (λ n. ("fresh", n)) (λ n. n) serve (page (some "abc")) s1 in
    (q : HttpRequest) × (inside : Context ℕ) × (q
      ≡ record (page (some "abc")) { correlation_id = some "abc" })
    × (logged_id inside ≡ "abc")
    × (inside.samples ≡ s1.samples)
    × (inside.env ≡ s1.env)
    × Echoed "abc" answer
    × SameEnd answer (serve q inside).0
    × (after ≡ record (serve q inside).1 { correlation_id = none })
unfolding truthy lookup
correlate_lem_example =
    correlate_lem (λ n. ("fresh", n)) (λ n. n) serve (page none ∷ []) (page (some "abc")) blank
      "abc" refl
