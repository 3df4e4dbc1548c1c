-- ===== src/Manager/Leading.antt =====
-- pkg/leader/poller.go and pkg/manager/manager.go: what a poll reports of the leadership, and when the
-- manager is told that it changed.
use deploykit.Base.{
  ◌≡◌, refl, Option, none, some, Bool, true, false, not, List, [], ◌∷◌, ◌++◌, if◌then◌else◌, ◌∙◌,
}

-- `Status`.
pub data Status : Type 0 where
  not_leader leader unknown : Status

-- The event of a poll, by what `CheckLeaderFunc` answered: `none` is an error.
unfoldable pub poll_event : Option Bool → Status
poll_event none = unknown
poll_event (some is_leader) = if is_leader then leader else not_leader

-- The flag after an event.
unfoldable pub next_flag : Bool → Status → Bool
next_flag current unknown = if current then false else current
next_flag current leader = true
next_flag current not_leader = false

-- A send to `notify` where the flag changed.
abbrev pub notify : Bool → Bool → List Bool
notify true true = []
notify false false = []
notify current next = next ∷ []

-- The loop over the events: the flag that it leaves, and what it sent.
unfoldable pub watch : Bool → List Status → Bool × List Bool
watch current [] = (current, [])
watch current (event ∷ events) =
    let next = next_flag current event in
    let rest = watch next events in (rest.0, notify current next ++ rest.1)

-- The polls, as the events that they send to a manager.
abbrev pub poll_all : List (Option Bool) → List Status
poll_all [] = []
poll_all (answer ∷ answers) = poll_event answer ∷ poll_all answers

-- Each entry differs from the one before, the first from a given one.
abbrev pub Alternates : Bool → List Bool → Type 0
Alternates b [] = Unit {0}
Alternates b (c ∷ cs) = (c ≡ not b) × Alternates c cs

abbrev pub last_or : Bool → List Bool → Bool
last_or b [] = b
last_or b (c ∷ cs) = last_or c cs

-- The answers, an error counted as no.
abbrev pub answers_yes : Option Bool → Bool
answers_yes none = false
answers_yes (some b) = b

abbrev pub yes_all : List (Option Bool) → List Bool
yes_all [] = []
yes_all (answer ∷ answers) = answers_yes answer ∷ yes_all answers

next_flag-poll_event :
    (b : Bool) (answer : Option Bool) → next_flag b (poll_event answer) ≡ answers_yes answer
unfolding next_flag poll_event
next_flag-poll_event false none = refl
next_flag-poll_event true none = refl
next_flag-poll_event b (some true) = refl
next_flag-poll_event b (some false) = refl

last_or-notify : (b c : Bool) (l : List Bool) → last_or b (notify b c ++ l) ≡ last_or c l
last_or-notify true true l = refl
last_or-notify false false l = refl
last_or-notify true false l = refl
last_or-notify false true l = refl

notify-Alternates : (b c : Bool) (l : List Bool) → Alternates c l → Alternates b (notify b c ++ l)
notify-Alternates true true l h = h
notify-Alternates false false l h = h
notify-Alternates true false l h = (refl, h)
notify-Alternates false true l h = (refl, h)

-- After any polls the manager's flag says what the last one answered, an error counted as no;
-- the notifications that were sent alternate, the first one unlike the flag at the start, and
-- the last one is the flag.
pub watch_lem :
    (b : Bool) (answers : List (Option Bool))
    → ((watch b (poll_all answers)).0 ≡ last_or b (yes_all answers))
      × (last_or b (watch b (poll_all answers)).1 ≡ last_or b (yes_all answers))
      × Alternates b (watch b (poll_all answers)).1
unfolding watch
watch_lem b [] = (refl, refl, tt)
watch_lem b (answer ∷ answers) =
    let c = answers_yes answer in
    let rest = watch_lem c answers in
    rw (watch, next_flag-poll_event b answer)
      (
        rest.0,
        last_or-notify b c (watch c (poll_all answers)).1 ∙ rest.1,
        notify-Alternates b c (watch c (poll_all answers)).1 rest.2,
      )
