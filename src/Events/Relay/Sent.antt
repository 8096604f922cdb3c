-- ===== src/Events/Relay/Sent.antt =====
-- The messages of a round of the relay of flydesk/events/relay.py.
use mathlib.Core.Path.{subst}
use fly_desk.Prelude.{
  ◌≡◌, refl, sym, ap, ◌∙◌, String, true, inl, inr, none, some, List, [], ◌∷◌, ◌++◌, map, arith,
  Bool-cases,
}
use fly_desk.Prelude.Lists.{In, length}
use fly_desk.Prelude.Options.{or_default}
use fly_desk.Domain.Models.{OutboxEvent, Order}
use fly_desk.Mongo.{Collection}
use fly_desk.Bookings.Document.{OrderDoc}
use fly_desk.Bookings.Repository.{id_of, index_field, is_unpublished, has_unpublished}
use fly_desk.Events.{topic_for, outbox_value, Message, Broker}
use fly_desk.Events.Relay.{message_of}
use fly_desk.Events.Relay.Laws.{pending}

-- The message that tells of an event of the order with this id.
abbrev pub announcement : String → OutboxEvent → Message
announcement order_id e = record {
  topic = topic_for e.kind;
  key = or_default e.payload.order_id order_id;
  value = outbox_value e.id e.kind e.payload;
}

-- The broker after the messages, one after another.
unfoldable pub publish_all : (b : Broker) → List Message → b.Env → b.Env
publish_all b [] e = e
publish_all b (m ∷ ms) e = publish_all b ms (b.publish m e).1

pub publish_all-append :
    (b : Broker) (ms ns : List Message) (e : b.Env)
    → publish_all b (ms ++ ns) e ≡ publish_all b ns (publish_all b ms e)
unfolding publish_all
publish_all-append b [] ns e = refl
publish_all-append b (m ∷ ms) ns e = publish_all-append b ms ns (b.publish m e).1

abbrev pub messages : Order → List Message
messages o = map (message_of o) (pending o.outbox)

abbrev pub all_messages : List Order → List Message
all_messages [] = []
all_messages (o ∷ rest) = messages o ++ all_messages rest

pub length-messages : (o : Order) (l : List OutboxEvent) → length (map (message_of o) l) ≡ length l
length-messages o [] = refl
length-messages o (e ∷ l) = omega (arith, length-messages o l)

In-append : {A : Type 0} (x : A) (xs ys : List A) → In x xs → In x (xs ++ ys)
In-append x [] ys h = absurd h
In-append x (y ∷ xs) ys (inl same) = inl same
In-append x (y ∷ xs) ys (inr later) = inr (In-append x xs ys later)

In-append_later : {A : Type 0} (x : A) (xs ys : List A) → In x ys → In x (xs ++ ys)
In-append_later x [] ys h = h
In-append_later x (y ∷ xs) ys h = inr (In-append_later x xs ys h)

In-messages :
    (o : Order) (l : List OutboxEvent) (e : OutboxEvent)
    → In e l
    → e.published_at ≡ none
    → In (announcement o.id e) (map (message_of o) (pending l))
unfolding pending message_of
In-messages o [] e h waits = absurd h
In-messages o (x ∷ l) e (inl same) waits =
    rw (ap (λ (y : OutboxEvent). y.published_at) same ∙ waits) (inl (ap (message_of o) same))
In-messages o (x ∷ l) e (inr later) waits = elim (Bool-cases (is_unpublished x)) [
  | inl first ↦ rw first (inr (In-messages o l e later waits))
  | inr done ↦ rw done (In-messages o l e later waits)
]

pub In-waits :
    (l : List OutboxEvent) (e : OutboxEvent)
    → In e l
    → e.published_at ≡ none
    → has_unpublished l ≡ true
unfolding has_unpublished
In-waits [] e h waits = absurd h
In-waits (x ∷ l) e (inl same) waits =
    rw (ap (λ (y : OutboxEvent). y.published_at) same ∙ waits) refl
In-waits (x ∷ l) e (inr later) waits = elim (Bool-cases (is_unpublished x)) [
  | inl first ↦ rw first refl
  | inr done ↦ rw done (In-waits l e later waits)
]

-- The list has a message for each waiting event of a stored order.
abbrev pub AllAnnounced : (col : Collection id_of index_field) → col.State → List Message → Type 0
AllAnnounced col s ms =
    (i : String) (d : OrderDoc) (e : OutboxEvent)
    → col.by_id s i ≡ some d
    → In e d.outbox
    → e.published_at ≡ none
    → In (announcement i e) ms

pub In-all_messages :
    (orders : List Order) (o : Order) (e : OutboxEvent)
    → In o orders
    → In e o.outbox
    → e.published_at ≡ none
    → In (announcement o.id e) (all_messages orders)
In-all_messages [] o e h i waits = absurd h
In-all_messages (x ∷ rest) o e (inl same) i waits =
    In-append (announcement o.id e) (messages x) (all_messages rest) (
      subst (λ (y : Order). In (announcement o.id e) (messages y)) (sym same)
        (In-messages o o.outbox e i waits))
In-all_messages (x ∷ rest) o e (inr later) i waits =
    In-append_later (announcement o.id e) (messages x) (all_messages rest)
      (In-all_messages rest o e later i waits)
