-- ===== src/StEvents/Safety.antt =====
-- When a round panics, and what it sends when it does not.
use correlation.Base.{
  ℕ, Text, codes, List, [], ◌∷◌, ◌++◌, ◌≡◌, inl, inr, refl, arith, All, Bool, true, false, text_eq,
  Bool-cases, ◌||◌, ◌≢◌, sym, ◌∙◌, some, Map, lookup, text_eq_iff,
}
use correlation.Tracker.{StEvent}
use correlation.StEvents.{
  Event, Data, Json, object, text, going, panic, item_of, send_event, send_events, last_id, events,
  goes_on, round,
}

abbrev pub is_item : Text → Bool
is_item kind = text_eq kind (codes "ItemStarted") || text_eq kind (codes "ItemFinished")

-- The data have a text as their "item".
abbrev pub Names : Data → Text → Type 0
Names payload item =
    (m : Map Json) × (payload ≡ object m) × (lookup (codes "item") m ≡ some (text item))

Names-item_of : (payload : Data) (item : Text) → Names payload item → item_of payload ≡ going item
unfolding item_of
Names-item_of payload item (m, e, h) = rw (e, h)

-- What an event tells the loop that collects changes.
pub data Says (e : Event) (sent : List StEvent) : Type 0 where
  remote_index :
      e.kind ≡ codes "RemoteIndexUpdated"
      → sent ≡ record { path = []; finished = false } ∷ []
      → Says e sent
  started :
      (item : Text)
      → e.kind ≡ codes "ItemStarted"
      → Names e.payload item
      → sent ≡ record { path = item; finished = false } ∷ []
      → Says e sent
  finished :
      (item : Text)
      → e.kind ≡ codes "ItemFinished"
      → Names e.payload item
      → sent ≡ record { path = item; finished = true } ∷ []
      → Says e sent
  nothing_new :
      e.kind ≢ codes "RemoteIndexUpdated"
      → e.kind ≢ codes "ItemStarted"
      → e.kind ≢ codes "ItemFinished"
      → sent ≡ []
      → Says e sent

-- what some events tell it, one after the other
abbrev pub SaysAll : List Event → List StEvent → Type 0
SaysAll [] sent = sent ≡ []
SaysAll (e ∷ es) sent =
    (first : List StEvent) × (rest : List StEvent) × Says e first
    × SaysAll es rest
    × (sent ≡ first ++ rest)

-- An event whose data are as syncthing documents them: an event about an item names the item.
pub record IsWellFormed (e : Event) : Type 0 where
  pub named : is_item e.kind ≡ true → (item : Text) × Names e.payload item

or_left : (a b : Bool) → a ≡ true → (a || b) ≡ true
or_left a b h = ground arith

or_right : (a b : Bool) → b ≡ true → (a || b) ≡ true
or_right a b h = ground arith

same_kind : (e : Event) (kind : Text) → text_eq e.kind kind ≡ true → e.kind ≡ kind
same_kind e kind h = (text_eq_iff e.kind kind).0 h

other_kind : (e : Event) (kind : Text) → text_eq e.kind kind ≡ false → e.kind ≢ kind
other_kind e kind h same = true-ne-false (sym ((text_eq_iff e.kind kind).1 same) ∙ h)
  where
    true-ne-false : true ≢ false
    true-ne-false q = cc

send_event_total :
    (e : Event) → IsWellFormed e → (sent : List StEvent) × Says e sent × (send_event e ≡ going sent)
unfolding send_event
send_event_total e h = elim (Bool-cases (text_eq e.kind (codes "RemoteIndexUpdated"))) [
  | inl a ↦ (record { path = []; finished = false } ∷ [], remote_index (same_kind e _ a) refl, rw a)
  | inr a ↦ elim (Bool-cases (text_eq e.kind (codes "ItemStarted"))) [
    | inl b ↦
        let (item, p) = h.named (or_left _ _ b) in
        (
          record { path = item; finished = false } ∷ [],
          started item (same_kind e _ b) p refl,
          rw (a, b, Names-item_of e.payload item p),
        )
    | inr b ↦ elim (Bool-cases (text_eq e.kind (codes "ItemFinished"))) [
      | inl c ↦
          let (item, p) = h.named (or_right _ _ c) in
          (
            record { path = item; finished = true } ∷ [],
            finished item (same_kind e _ c) p refl,
            rw (a, b, c, Names-item_of e.payload item p),
          )
      | inr c ↦ (
        [],
        nothing_new (other_kind e _ a) (other_kind e _ b) (other_kind e _ c) refl,
        rw (a, b, c),
      )
    ]
  ]
]

send_events_total :
    (es : List Event)
    → All IsWellFormed es
    → (sent : List StEvent) × SaysAll es sent × (send_events es ≡ going sent)
unfolding send_events
send_events_total [] h = ([], refl, refl)
send_events_total (e ∷ es) (h, hs) =
    let (sent, says, p) = send_event_total e h in
    let (rest, more, q) = send_events_total es hs in
    (sent ++ rest, (sent, rest, says, more, refl), rw (p, q))

-- the ID of the last event
pub last_of : Event → List Event → ℕ
last_of e [] = e.id
last_of e (f ∷ es) = last_of f es

last_id_total : (e : Event) (es : List Event) → last_id (e ∷ es) ≡ going (last_of e es)
unfolding last_id last_of
last_id_total e [] = refl
last_id_total e (f ∷ es) = last_id_total f es

-- A round of watchSTEvents that begins with the watcher open, on a response with at least one event, each
-- of them well formed, does not panic. It sends for each event in turn what the event says: an empty path
-- for RemoteIndexUpdated, the item, not finished, for ItemStarted, the item, finished, for ItemFinished,
-- and nothing for any other. Then it goes on behind the ID of the last event.
pub round_goes_on :
    (last_seen : ℕ) (later : Bool) (e : Event) (es : List Event)
    → All IsWellFormed (e ∷ es)
    → (sent : List StEvent) × SaysAll (e ∷ es) sent
      × (round last_seen false later (events (e ∷ es)) ≡ going (goes_on (last_of e es) sent))
unfolding round
round_goes_on last_seen later e es h =
    let (sent, says, p) = send_events_total (e ∷ es) h in (sent, says, rw (p, last_id_total e es))

-- A response without events, which is no error and not nil, ends the program.
pub round_empty_panics :
    (last_seen : ℕ) (later : Bool) → round last_seen false later (events []) ≡ panic
unfolding round
round_empty_panics last_seen later = refl
