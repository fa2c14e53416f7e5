-- ===== src/Server/System/Consistent.antt =====
-- When the leases, the sessions and the inventory agree.
use ostool.Prelude.{◌≡◌, sym, ap, ◌∙◌, true, some, Text}
use mathlib.Core.Path.{subst}
use mathlib.Core.Option.{some-injective}
use ostool.Prelude.Map.{lookup, contains_key, AllEntries}
use ostool.Prelude.Map.Sorted.{IsSorted}
use ostool.Server.Session.{SessionState}
use ostool.Server.State.{AppState, BoardRuntimeState, Runtimes}
use ostool.Server.State.Leases.{IsLeased}
use ostool.Server.State.Create.Laws.{IsInventory}

-- The session has the board.
abbrev pub Holds : Text → Text → Runtimes → Type 0
Holds board_id id runtimes =
    (r : BoardRuntimeState) × (lookup board_id runtimes ≡ some r) × (r.active_session_id ≡ some id)

-- The session stands under its identifier, is on its board, and has it.
abbrev pub Attached : Text → SessionState → Runtimes → Type 0
Attached id session runtimes =
    (session.info.id ≡ id)
    × (session.info.board_id ≡ session.board.id)
    × Holds session.board.id id runtimes

-- The inventory is one, and has every board with a runtime; a board is idle exactly when no session
-- has it, and no session has two boards; every session in the map has its board, and every session
-- that has a board is in the map.
pub record IsConsistent (s : AppState) : Type 0 where
  pub inventory : IsInventory s.boards s.board_runtimes
  pub listed :
      (k : Text) (r : BoardRuntimeState)
      → lookup k s.board_runtimes ≡ some r
      → contains_key k s.boards ≡ true
  pub leased : IsLeased s.board_runtimes
  pub attached :
      (id : Text) (session : SessionState)
      → lookup id s.sessions ≡ some session
      → Attached id session s.board_runtimes
  pub owned :
      (k id : Text)
      → Holds k id s.board_runtimes
      → (session : SessionState) × (lookup id s.sessions ≡ some session)

-- What no change of a session touches.
pub record Same (x y : SessionState) : Type 0 where
  pub same_id : y.info.id ≡ x.info.id
  pub same_board_id : y.info.board_id ≡ x.info.board_id
  pub same_board : y.board ≡ x.board

-- A step that leases no board and gives none back.
pub record Quiet (s s' : AppState) : Type 0 where
  pub boards_same : s'.boards ≡ s.boards
  pub leased_after : IsLeased s.board_runtimes → IsLeased s'.board_runtimes
  pub runtime_old :
      (k : Text) (r : BoardRuntimeState)
      → lookup k s'.board_runtimes ≡ some r
      → (q : BoardRuntimeState) × (lookup k s.board_runtimes ≡ some q)
  pub runtime_kept :
      (k : Text) (r : BoardRuntimeState)
      → lookup k s.board_runtimes ≡ some r
      → (q : BoardRuntimeState) × (lookup k s'.board_runtimes ≡ some q)
        × (q.active_session_id ≡ r.active_session_id)
  pub session_old :
      (id : Text) (session : SessionState)
      → lookup id s'.sessions ≡ some session
      → (old : SessionState) × (lookup id s.sessions ≡ some old) × Same old session
  pub session_kept :
      (id : Text) (session : SessionState)
      → lookup id s.sessions ≡ some session
      → (new : SessionState) × (lookup id s'.sessions ≡ some new)

Holds-kept :
    {s s' : AppState}
    → Quiet s s'
    → (k id : Text) → Holds k id s.board_runtimes
    → Holds k id s'.board_runtimes
Holds-kept quiet k id (r, e, a) = let (q, f, b) = quiet.runtime_kept k r e in (q, f, b ∙ a)

Holds-old :
    {s s' : AppState}
    → Quiet s s'
    → (k id : Text) → Holds k id s'.board_runtimes
    → Holds k id s.board_runtimes
Holds-old quiet k id (r, e, a) =
    let (q, f) = quiet.runtime_old k r e in
    let (r', e', b) = quiet.runtime_kept k q f in
    (q, f, sym b ∙ ap (λ x. x.active_session_id) (some-injective _ _ (sym e' ∙ e)) ∙ a)

pub Quiet-IsConsistent : {s s' : AppState} → Quiet s s' → IsConsistent s → IsConsistent s'
Quiet-IsConsistent {s} {s'} quiet c = record {
  inventory = record {
    sorted = subst IsSorted (sym quiet.boards_same) c.inventory.sorted;
    keyed = subst (AllEntries (λ k b. k ≡ b.id)) (sym quiet.boards_same) c.inventory.keyed;
    runtime = λ k board e.
        let (r, f) =
          c.inventory.runtime k board (subst (λ m. lookup k m ≡ some board) quiet.boards_same e) in
        let (q, g, _) = quiet.runtime_kept k r f in (q, g);
  };
  listed = λ k r e.
      let (q, f) = quiet.runtime_old k r e in
      subst (λ m. contains_key k m ≡ true) (sym quiet.boards_same) (c.listed k q f);
  leased = quiet.leased_after c.leased;
  attached = λ id session e.
      let (old, f, same) = quiet.session_old id session e in
      let (i, b, h) = c.attached id old f in
      (
        same.same_id ∙ i,
        same.same_board_id ∙ b ∙ ap (λ x. x.id) (sym same.same_board),
        subst (λ x. Holds x.id id s'.board_runtimes) (sym same.same_board)
            (Holds-kept quiet old.board.id id h),
      );
  owned =
      λ k id h. let (old, f) = c.owned k id (Holds-old quiet k id h) in quiet.session_kept id old f;
}
