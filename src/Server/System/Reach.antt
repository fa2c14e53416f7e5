-- ===== src/Server/System/Reach.antt =====
-- The states that the server can come to from its start.
use ostool.Prelude.{
  ℕ, ◌≡◌, ◌≢◌, refl, sym, ap, ◌∙◌, true, none, some, [], ◌∷◌, arith, if◌then◌else◌, Text,
}
use mathlib.Core.Path.{subst}
use mathlib.Core.Option.{some-injective}
use ostool.Prelude.Map.{lookup, contains_key, AllEntries, lookup-insert}
use ostool.Prelude.Map.Sorted.{IsSorted}
use ostool.Server.BoardPool.{BoardConfig, Boards}
use ostool.Server.Session.{SessionState}
use ostool.Server.State.{
  AppState, BoardRuntimeState, Runtimes, default, is_idle, initial_board_runtimes,
}
use ostool.Server.System.{Call, step}
use ostool.Server.System.Consistent.{IsConsistent}
use ostool.Server.System.Kept.{IsNew, step-IsConsistent}

-- The state that the server starts with, for the boards it has read.
unfoldable pub started : ℕ → Boards → AppState
started now boards = record {
  boards = boards;
  board_runtimes = initial_board_runtimes now boards;
  sessions = [];
  release_tx = [];
}

pub data Reach : AppState → Type 0 where
  starts :
      (now : ℕ) (boards : Boards)
      → IsSorted boards
      → AllEntries (λ k board. k ≡ board.id) boards
      → Reach (started now boards)
  steps : (call : Call) (s : AppState) → Reach s → IsNew call s → Reach (step call s)

lookup-initial_board_runtimes :
    (now : ℕ) (k : Text) (boards : Boards)
    → lookup k (initial_board_runtimes now boards)
      ≡ (if contains_key k boards then some (default now) else none)
unfolding initial_board_runtimes lookup contains_key
lookup-initial_board_runtimes now k [] = refl
lookup-initial_board_runtimes now k ((j, board) ∷ boards) = ground (
  arith,
  lookup-insert j k (default now) (initial_board_runtimes now boards),
  lookup-initial_board_runtimes now k boards,
)

initial_default :
    (now : ℕ) (k : Text) (boards : Boards) (r : BoardRuntimeState)
    → lookup k (initial_board_runtimes now boards) ≡ some r
    → (contains_key k boards ≡ true) × (r ≡ default now)
initial_default now k boards r e = ground (arith, lookup-initial_board_runtimes now k boards)

initial_free :
    (now : ℕ) (k : Text) (boards : Boards) (r : BoardRuntimeState)
    → lookup k (initial_board_runtimes now boards) ≡ some r
    → (is_idle r.lease_state ≡ true) × (r.active_session_id ≡ none)
unfolding default is_idle
initial_free now k boards r e =
    subst (λ r. (is_idle r.lease_state ≡ true) × (r.active_session_id ≡ none))
      (sym (initial_default now k boards r e).1) (refl, refl)

initial_has :
    (now : ℕ) (k : Text) (boards : Boards) (board : BoardConfig)
    → lookup k boards ≡ some board
    → lookup k (initial_board_runtimes now boards) ≡ some (default now)
unfolding contains_key
initial_has now k boards board e = ground (arith, lookup-initial_board_runtimes now k boards)

started-IsConsistent :
    (now : ℕ) (boards : Boards)
    → IsSorted boards
    → AllEntries (λ k board. k ≡ board.id) boards
    → IsConsistent (started now boards)
unfolding started lookup
started-IsConsistent now boards sorted keyed = record {
  inventory = record {
    sorted = sorted;
    keyed = keyed;
    runtime = λ k board e. (default now, initial_has now k boards board e);
  };
  listed = λ k r e. (initial_default now k boards r e).0;
  leased = record {
    idle_iff = λ k r e. let (i, a) = initial_free now k boards r e in (λ _. a, λ _. i);
    exclusive = λ i j r q id e f a b. absurd (cc (initial_free now i boards r e).1);
  };
  attached = λ id session e. absurd (cc);
  owned = λ k id h. let (r, e, a) = h in absurd (cc (initial_free now k boards r e).1);
}

pub Reach-IsConsistent : (s : AppState) → Reach s → IsConsistent s
Reach-IsConsistent s (starts now boards sorted keyed) = started-IsConsistent now boards sorted keyed
Reach-IsConsistent s (steps call old reach new) =
    step-IsConsistent call old (Reach-IsConsistent old reach) new

same_runtime :
    (m : Runtimes) {k l : Text} {r q : BoardRuntimeState}
    → lookup k m ≡ some r
    → lookup l m ≡ some q
    → k ≡ l
    → r ≡ q
same_runtime m {k} {l} {r} {q} p t e = some-injective r q (sym p ∙ ap (λ k. lookup k m) e ∙ t)

-- In every state the server can come to, two different sessions of the map are on different boards.
pub Reach-exclusive :
    (s : AppState)
    → Reach s
    → (i j : Text) (x y : SessionState) → lookup i s.sessions ≡ some x
    → lookup j s.sessions ≡ some y
    → i ≢ j
    → x.info.board_id ≢ y.info.board_id
Reach-exclusive s reach i j x y e f different same =
    let c = Reach-IsConsistent s reach in
    let (_, b, (r, p, a)) = c.attached i x e in
    let (_, d, (q, t, o)) = c.attached j y f in
    different (
      some-injective i j (
        sym a
        ∙ ap (λ v. v.active_session_id) (same_runtime s.board_runtimes p t (sym b ∙ same ∙ d))
        ∙ o))
