-- ===== src/StEvents.antt =====
-- service/watcher.go, watchSTEvents: the loop that polls syncthing for events and hands them on to
-- accumulateChanges. What json.Unmarshal makes of an event's data is a value of `Json`.
pub mod Safety
use correlation.Base.{
  ℕ, zero, suc, Text, codes, List, [], ◌∷◌, ◌++◌, Bool, true, false, if◌then◌else◌, Option, none,
  some, Map, lookup, text_eq, Result, ok, err, has_prefix, ◌||◌,
}
use correlation.Tracker.{StEvent}

-- the values of the fields of an event's data that the code tells apart
pub data Json : Type 0 where
  text : Text → Json
  flag : Bool → Json
  other : Json

pub data Data : Type 0 where
  object : Map Json → Data
  no_object : Data

-- syncthing.Event; its time is not read
pub record Event : Type 0 where
  pub id : ℕ
  pub kind : Text
  pub payload : Data

-- What a piece of the code comes to: it goes on with a value, or it panics.
pub data Outcome (A : Type 0) : Type 0 where
  going : A → Outcome A
  panic : Outcome A

infixl 5 ◌>>=◌
abbrev pub ◌>>=◌ : {A B : Type 0} → Outcome A → (A → Outcome B) → Outcome B
going a >>= f = f a
panic >>= f = panic

-- data["item"].(string)
abbrev pub as_text : Option Json → Outcome Text
as_text (some (text s)) = going s
as_text (some (flag b)) = panic
as_text (some other) = panic
as_text none = panic

-- event.Data.(map[string]interface{}), and its "item"
unfoldable pub item_of : Data → Outcome Text
item_of (object m) = as_text (lookup (codes "item") m)
item_of no_object = panic

-- the switch on the type of an event: what is sent to stInput
unfoldable pub send_event : Event → Outcome (List StEvent)
unfolding item_of
send_event e =
    if text_eq e.kind (codes "RemoteIndexUpdated")
    then going (record { path = []; finished = false } ∷ [])
    else if text_eq e.kind (codes "ItemStarted")
    then (do item ← item_of e.payload; going (record { path = item; finished = false } ∷ []))
    else if text_eq e.kind (codes "ItemFinished")
    then (do item ← item_of e.payload; going (record { path = item; finished = true } ∷ []))
    else going []

-- the loop over the events of a response
unfoldable pub send_events : List Event → Outcome (List StEvent)
unfolding send_event
send_events [] = going []
send_events (e ∷ es) = do sent ← send_event e; rest ← send_events es; going (sent ++ rest)

-- events[len(events)-1].ID, which panics on an empty slice
unfoldable pub last_id : List Event → Outcome ℕ
last_id [] = panic
last_id (e ∷ []) = going e.id
last_id (e ∷ f ∷ es) = last_id (f ∷ es)

-- What GetEvents returns: an error, nil, or a slice, which may be empty.
pub data Response : Type 0 where
  failed : Text → Response
  nothing : Response
  events : List Event → Response

-- The loop ends, or goes on with lastSeenID, behind what it has sent.
pub data Round : Type 0 where
  ended : Round
  goes_on : ℕ → List StEvent → Round

unfoldable pub contains_text : Text → Text → Bool
contains_text [] sub = has_prefix [] sub
contains_text (c ∷ s) sub = has_prefix (c ∷ s) sub || contains_text s sub

abbrev closed_connection : Text
closed_connection = codes "use of closed network connection"

-- what a round does with the response; the second argument says whether the watcher is closed by then
unfoldable pub on_response : ℕ → Bool → Response → Outcome Round
unfolding contains_text send_events last_id
on_response last_seen closed (failed e) =
    if contains_text e closed_connection
    then going (goes_on last_seen [])
    else if closed
    then going ended
    else going (goes_on 0 [])
on_response last_seen closed nothing = going (goes_on last_seen [])
on_response last_seen closed (events es) = do
  sent ← send_events es
  seen ← last_id es
  going (goes_on seen sent)

-- A round of watchSTEvents: whether the watcher was closed when it began, and when the response came.
unfoldable pub round : ℕ → Bool → Bool → Response → Outcome Round
unfolding on_response
round last_seen closed_before closed_after r =
    if closed_before then going ended else on_response last_seen closed_after r
