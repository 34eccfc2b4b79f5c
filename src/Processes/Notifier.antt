-- ===== src/Processes/Notifier.antt =====
-- `outputNotifier` of internal/core/plugin_processes.go: the sizes of a growing output, made fewer. A time
-- is a number of nanoseconds; `last` is none at first, as the zero time is long ago. Each publication is
-- kept with what it said, newest first.
use run_pilot.Prelude.{
  Bool, List, Option, [], ap, arith, false, if-cases, if◌then◌else◌, leb, none, not, refl, some,
  true, ℕ, ◌+◌, ◌||◌, ◌∙◌, ◌∷◌, ◌≡◌,
}

abbrev notify_interval : ℕ
notify_interval = 250000000

pub record Notifier : Type 0 where
  pub last : Option ℕ
  -- Whether the timer is set.
  pub timer : Bool
  pub size : ℕ
  pub pending : Bool
  pub stopped : Bool
  pub publications : List ℕ

unfoldable pub new_notifier : Notifier
new_notifier = record {
  last = none;
  timer = false;
  size = 0;
  pending = false;
  stopped = false;
  publications = [];
}

-- `wait <= 0`.
is_due : Option ℕ → ℕ → Bool
is_due none now = true
is_due (some last) now = leb (last + notify_interval) now

abbrev publish : ℕ → Notifier → Notifier
publish now n = record n {
  last = some now;
  pending = false;
  publications = n.size ∷ n.publications;
}

unfoldable pub notify : ℕ → ℕ → Notifier → Notifier
unfolding is_due
notify size now n =
    if n.stopped
    then n
    else if is_due n.last now
    then publish now (record n { size = size })
    else record n { size = size; pending = true; timer = true }

unfoldable pub flush : ℕ → Notifier → Notifier
flush now n =
    if n.stopped || not n.pending
    then record n { timer = false }
    else publish now (record n { timer = false })

unfoldable pub stop : Notifier → Notifier
stop n =
    if n.stopped
    then n
    else if n.pending
    then record n { stopped = true; publications = n.size ∷ n.publications }
    else record n { stopped = true }

-- What happens to a notifier until it is stopped: the output grows to a size, or the timer fires.
pub data Event : Type 0 where
  grows : ℕ → ℕ → Event
  fires : ℕ → Event

unfoldable pub event : Event → Notifier → Notifier
event (grows size now) n = notify size now n
event (fires now) n = flush now n

unfoldable pub events : List Event → Notifier → Notifier
unfolding event
events [] n = n
events (e ∷ es) n = events es (event e n)

-- The last size that the output grew to, or else `s`.
unfoldable pub last_size : List Event → ℕ → ℕ
last_size [] s = s
last_size (grows size now ∷ es) s = last_size es size
last_size (fires now ∷ es) s = last_size es s

abbrev pub head_or : ℕ → List ℕ → ℕ
head_or s [] = s
head_or s (p ∷ ps) = p

-- Not stopped, and what was published last is the size, unless a publication is pending.
record IsFresh (n : Notifier) (s : ℕ) : Type 0 where
  goes_on : n.stopped ≡ false
  has_size : n.size ≡ s
  fresh : n.pending ≡ false → head_or 0 n.publications ≡ s

event-IsFresh :
    (e : Event) (n : Notifier) (s : ℕ) → IsFresh n s → IsFresh (event e n) (last_size (e ∷ []) s)
unfolding event notify flush last_size
event-IsFresh (grows size now) n s f = record {
  goes_on = ground (arith, f.goes_on);
  has_size = ground (arith, f.goes_on);
  fresh = ground (arith, f.goes_on);
}
event-IsFresh (fires now) n s f = record {
  goes_on = ground (arith, f.goes_on);
  has_size = ground (arith, f.has_size);
  fresh = ground (arith, f.goes_on, f.has_size, f.fresh);
}

events-IsFresh :
    (es : List Event) (n : Notifier) (s : ℕ) → IsFresh n s → IsFresh (events es n) (last_size es s)
unfolding events last_size
events-IsFresh [] n s f = f
events-IsFresh (grows size now ∷ es) n s f =
    events-IsFresh es _ size (event-IsFresh (grows size now) n s f)
events-IsFresh (fires now ∷ es) n s f = events-IsFresh es _ s (event-IsFresh (fires now) n s f)

new_notifier-IsFresh : IsFresh new_notifier 0
unfolding new_notifier
new_notifier-IsFresh = record { goes_on = refl; has_size = refl; fresh = λ _. refl }

notify_stopped : (size now : ℕ) (n : Notifier) → n.stopped ≡ true → notify size now n ≡ n
unfolding notify
notify_stopped size now n h = if-cases (λ r. r ≡ n) n.stopped (λ _. refl) (λ b. absurd (cc))

flush_stopped :
    (now : ℕ) (n : Notifier) → n.stopped ≡ true → flush now n ≡ record n { timer = false }
unfolding flush
flush_stopped now n h =
    if-cases (λ r. r ≡ record n { timer = false }) (n.stopped || not n.pending) (λ _. refl)
      (λ b. let b' : true ≡ false = rw h at b in absurd (cc))

stopped_silent :
    (es : List Event) (n : Notifier)
    → n.stopped ≡ true
    → (events es n).publications ≡ n.publications
unfolding events event
stopped_silent [] n h = refl
stopped_silent (grows size now ∷ es) n h =
    ap (λ r. (events es r).publications) (notify_stopped size now n h) ∙ stopped_silent es n h
stopped_silent (fires now ∷ es) n h =
    ap (λ r. (events es r).publications) (flush_stopped now n h)
    ∙ stopped_silent es (record n { timer = false }) h

stop_stopped : (n : Notifier) → (stop n).stopped ≡ true
unfolding stop
stop_stopped n = ground arith

-- However the growth of an output and the timer fall together, once the notifier is stopped the last size
-- that it published is the last that the output grew to (0 if it never grew), and whatever comes after,
-- its publications stay those that it had when it was stopped.
pub stop_delivers :
    (before after : List Event)
    → let stopped = stop (events before new_notifier) in
      (head_or 0 stopped.publications ≡ last_size before 0)
      × ((events after stopped).publications ≡ stopped.publications)
unfolding stop
stop_delivers before after =
    let n = events before new_notifier in
    let f = events-IsFresh before new_notifier 0 new_notifier-IsFresh in
    (ground (arith, f.goes_on, f.has_size, f.fresh), stopped_silent after (stop n) (stop_stopped n))
