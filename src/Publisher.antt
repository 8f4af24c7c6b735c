-- ===== src/Publisher.antt =====
-- rmake/lib/publisher.py: the publisher and its cork. A state, an event and a subscriber are
-- numbers; the calls of a listener take one event, those of a dispatcher a list. The table of what
-- is to be emitted is in the order in which its subscribers were first told of something; Python
-- leaves that order open. No subscriber raises here, nor calls the publisher.
pub mod Corking
pub mod Equal
mod Tests
use rmake.Base.{
  ℕ, suc, zero, ◌+◌, ◌-◌, Bool, true, false, Option, none, some, List, [], ◌∷◌, ◌++◌, ◌==◌, elem,
  if◌then◌else◌, map, ◌>>=◌, discard,
}
use rmake.Base.Dict.{Dict, lookup, insert}

pub record Notice : Type 0 where
  pub event : ℕ
  pub args : ℕ

pub data Call : Type 0 where
  listener_call : (fn : ℕ) → Notice → Call
  dispatcher_call : (fn : ℕ) → List Notice → Call

pub record Publisher : Type 0 where
  pub listeners : Dict (List ℕ)
  pub dispatchers : Dict (List ℕ)
  pub to_emit : Dict (Bool × List Notice)
  pub corked : ℕ

-- `reset`
abbrev pub fresh : Publisher
fresh = record { listeners = []; dispatchers = []; to_emit = []; corked = 0 }

unfoldable pub cork : Publisher → Publisher
cork s = record s { corked = s.corked + 1 }

-- `d.get(event, [])`
abbrev pub get_list : ℕ → Dict (List ℕ) → List ℕ
get_list event d = elim (lookup event d) [ none ↦ [] | some l ↦ l ]

unfoldable pub call_each : ℕ → List Notice → List Call
call_each fn [] = []
call_each fn (n ∷ ns) = listener_call fn n ∷ call_each fn ns

-- The loop of `uncork`.
unfoldable pub flush : Dict (Bool × List Notice) → List Call
flush [] = []
flush ((fn, (true, l)) ∷ rest) = dispatcher_call fn l ∷ flush rest
flush ((fn, (false, l)) ∷ rest) = call_each fn l ++ flush rest

unfoldable pub uncork : Publisher → Publisher × List Call
uncork s =
    if s.corked - 1 == 0
    then (record s { corked = 0; to_emit = [] }, flush s.to_emit)
    else (record s { corked = s.corked - 1 }, [])

-- One subscriber of the loops of `_emit` under a cork.
unfoldable pub keep_notice :
    Bool → Notice → ℕ → Dict (Bool × List Notice) → Dict (Bool × List Notice)
keep_notice is_dispatcher n fn d = elim (lookup fn d) [
  | none ↦ insert fn (is_dispatcher, n ∷ []) d
  | some (kind, l) ↦ insert fn (kind, l ++ n ∷ []) d
]

unfoldable pub keep_each :
    Bool → Notice → List ℕ → Dict (Bool × List Notice) → Dict (Bool × List Notice)
keep_each is_dispatcher n [] d = d
keep_each is_dispatcher n (fn ∷ fns) d =
    keep_each is_dispatcher n fns (keep_notice is_dispatcher n fn d)

abbrev pub listener_calls : Notice → List ℕ → List Call
listener_calls n fns = map (λ fn. listener_call fn n) fns

abbrev pub dispatcher_calls : Notice → List ℕ → List Call
dispatcher_calls n fns = map (λ fn. dispatcher_call fn (n ∷ [])) fns

-- `_emit`: corked, the notice is kept; otherwise the publisher is corked during the calls.
unfoldable pub emit : Notice → Publisher → Publisher × List Call
emit n s =
    let ds = get_list n.event s.dispatchers in
    let ls = get_list n.event s.listeners in
    let (t, more) = uncork (cork s) in
    if s.corked == 0
    then (t, dispatcher_calls n ds ++ listener_calls n ls ++ more)
    else (record s { to_emit = keep_each false n ls (keep_each true n ds s.to_emit) }, [])

unfoldable pub emit_each : List Notice → Publisher → Publisher × List Call
emit_each [] s = (s, [])
emit_each (n ∷ ns) s =
    let (t, calls) = emit n s in let (u, more) = emit_each ns t in (u, calls ++ more)

-- `if fn not in l: l.append(fn)`
abbrev pub append_new : ℕ → List ℕ → List ℕ
append_new fn l = if elem fn l then l else l ++ fn ∷ []

-- One state of the loop of `subscribe`, given the states of the publisher.
unfoldable pub subscribe_one : List ℕ → Bool → ℕ → ℕ → Publisher → Option Publisher
subscribe_one states dispatcher fn state s =
    if elem state states
    then some (
        if dispatcher
        then record s {
          dispatchers = insert state (append_new fn (get_list state s.dispatchers)) s.dispatchers;
        }
        else record s {
          listeners = insert state (append_new fn (get_list state s.listeners)) s.listeners;
        })
    else none

unfoldable pub subscribe : List ℕ → Bool → ℕ → List ℕ → Publisher → Option Publisher
subscribe states dispatcher fn [] s = some s
subscribe states dispatcher fn (x ∷ xs) s = do
  t ← subscribe_one states dispatcher fn x s
  subscribe states dispatcher fn xs t

unfoldable pub subscribe_all : List ℕ → Bool → ℕ → Publisher → Option Publisher
subscribe_all states dispatcher fn s = subscribe states dispatcher fn states s
