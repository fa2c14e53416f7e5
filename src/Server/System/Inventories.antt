-- ===== src/Server/System/Inventories.antt =====
-- The steps that change the inventory.
use ostool.Prelude.{
  ℕ, ◌≡◌, ◌≢◌, ◌⊎◌, refl, sym, ◌∙◌, inl, inr, true, none, some, [], ◌∷◌, arith, if◌then◌else◌, Text,
  text_eq_iff,
}
use mathlib.Core.Path.{subst}
use ostool.Prelude.Map.{
  lookup, insert, remove, contains_key, AllEntries, AllEntries-insert, contains_key-lookup,
}
use ostool.Prelude.Map.Sorted.{
  IsSorted, IsSorted-IsUnique, insert-IsSorted, remove-IsSorted, contains_key-insert,
  contains_key-remove,
}
use ostool.Server.BoardPool.{BoardConfig, Boards}
use ostool.Server.State.{AppState, Runtimes, default, sync_board_runtime_states, unwrap_or}
use ostool.Server.State.Transitions.{
  lookup-sync_board_runtime_states, sync_board_runtime_states-IsLeased, synced_session,
}
use ostool.Server.Inventory.{
  Checks, with_boards, check_idle, create_board, update_board, delete_board,
}
use ostool.Server.System.Consistent.{IsConsistent, Holds}

-- The keys and their boards agree.
abbrev IsKeyed : Boards → Type 0
IsKeyed = AllEntries (λ k board. k ≡ board.id)

module _ (now : ℕ) (boards : Boards) (s : AppState) (c : IsConsistent s) (sorted : IsSorted boards)
    (keyed : IsKeyed boards)
    (keeps : (k id : Text) → Holds k id s.board_runtimes → contains_key k boards ≡ true) where
  abbrev synced : Runtimes
  synced = sync_board_runtime_states now boards s.board_runtimes

  lookup-synced :
      (k : Text)
      → lookup k synced ≡ (
          if contains_key k boards
          then some (unwrap_or (default now) (lookup k s.board_runtimes))
          else none)
  lookup-synced k =
      lookup-sync_board_runtime_states now k boards s.board_runtimes
        (IsSorted-IsUnique boards sorted)

  Holds-synced : (k id : Text) → Holds k id s.board_runtimes → Holds k id synced
  Holds-synced k id (r, e, a) = (r, found, a)
    where
      found : lookup k synced ≡ some r
      found = lookup-synced k ∙ rw (keeps k id (r, e, a), e)

  pub with_boards-IsConsistent : IsConsistent (with_boards now boards s)
  unfolding with_boards
  with_boards-IsConsistent = record {
    inventory = record {
      sorted = sorted;
      keyed = keyed;
      runtime = λ k board e. (
        unwrap_or (default now) (lookup k s.board_runtimes),
        lookup-synced k ∙ rw (contains_key-lookup k boards e),
      );
    };
    listed = λ k r e. ground (arith, lookup-synced k);
    leased =
        sync_board_runtime_states-IsLeased now boards s.board_runtimes
          (IsSorted-IsUnique boards sorted) c.leased;
    attached = λ id x e. let (i, k, h) = c.attached id x e in (i, k, Holds-synced x.board.id id h);
    owned = λ k id h. c.owned k id (
      h.0,
      synced_session now k id boards s.board_runtimes h.0 (IsSorted-IsUnique boards sorted) h.1 h.2,
      h.2,
    );
  }

AllEntries-remove : (k : Text) (m : Boards) → IsKeyed m → IsKeyed (remove k m)
unfolding remove
AllEntries-remove k [] h = tt
AllEntries-remove k ((j, v) ∷ m) h = ground (arith, AllEntries-remove k m h.1)

held_listed :
    (s : AppState)
    → IsConsistent s
    → (k id : Text) → Holds k id s.board_runtimes
    → contains_key k s.boards ≡ true
held_listed s c k id (r, e, a) = c.listed k r e

-- A board that passes the test of its lease is nobody's.
pub check_idle_ne :
    (s : AppState)
    → IsConsistent s
    → (b k id : Text) → check_idle b s ≡ none
    → Holds k id s.board_runtimes
    → b ≢ k
unfolding check_idle
check_idle_ne s c b k id free (r, e, a) p =
    ground
      (arith, subst (λ i. lookup i s.board_runtimes ≡ some r) (sym p) e, c.leased.idle_iff k r e)

create_board_cases :
    (ch : Checks) (now : ℕ) (board : BoardConfig) (s : AppState)
    → ((create_board ch now board s).1 ≡ s)
      ⊎ ((create_board ch now board s).1 ≡ with_boards now (insert board.id board s.boards) s)
unfolding create_board
create_board_cases ch now board s = ground arith

pub create_board-IsConsistent :
    (ch : Checks) (now : ℕ) (board : BoardConfig) (s : AppState)
    → IsConsistent s
    → IsConsistent (create_board ch now board s).1
create_board-IsConsistent ch now board s c = elim (create_board_cases ch now board s) [
  | inl e ↦ subst IsConsistent (sym e) c
  | inr e ↦ subst IsConsistent (sym e) (
      with_boards-IsConsistent now (insert board.id board s.boards) s c
        (insert-IsSorted board.id board s.boards c.inventory.sorted)
        (AllEntries-insert (λ k b. k ≡ b.id) board.id board s.boards refl c.inventory.keyed)
        (λ k id h.
          ground (arith, contains_key-insert board.id k board s.boards, held_listed s c k id h)))
]

update_board_cases :
    (ch : Checks) (now : ℕ) (board_id : Text) (board : BoardConfig) (s : AppState)
    → ((update_board ch now board_id board s).1 ≡ s)
      ⊎ ((check_idle board_id s ≡ none)
          × ((update_board ch now board_id board s).1
              ≡ with_boards now (insert board.id board (remove board_id s.boards)) s))
unfolding update_board
update_board_cases ch now board_id board s = ground arith

pub update_board-IsConsistent :
    (ch : Checks) (now : ℕ) (board_id : Text) (board : BoardConfig) (s : AppState)
    → IsConsistent s
    → IsConsistent (update_board ch now board_id board s).1
update_board-IsConsistent ch now board_id board s c =
    elim (update_board_cases ch now board_id board s) [
      | inl e ↦ subst IsConsistent (sym e) c
      | inr (free, e) ↦ subst IsConsistent (sym e) (
          with_boards-IsConsistent now (insert board.id board (remove board_id s.boards)) s c
            (insert-IsSorted board.id board (remove board_id s.boards)
              (remove-IsSorted board_id s.boards c.inventory.sorted))
            (AllEntries-insert (λ k b. k ≡ b.id) board.id board (remove board_id s.boards) refl
              (AllEntries-remove board_id s.boards c.inventory.keyed))
            (λ k id h. ground (
              arith,
              contains_key-insert board.id k board (remove board_id s.boards),
              contains_key-remove board_id k s.boards,
              held_listed s c k id h,
              check_idle_ne s c board_id k id free h,
              text_eq_iff board_id k,
            )))
    ]

pub delete_board_cases :
    (ch : Checks) (now : ℕ) (board_id : Text) (s : AppState)
    → ((delete_board ch now board_id s).1 ≡ s)
      ⊎ ((check_idle board_id s ≡ none)
          × ((delete_board ch now board_id s).1 ≡ with_boards now (remove board_id s.boards) s))
unfolding delete_board
delete_board_cases ch now board_id s = ground arith

pub delete_board-IsConsistent :
    (ch : Checks) (now : ℕ) (board_id : Text) (s : AppState)
    → IsConsistent s
    → IsConsistent (delete_board ch now board_id s).1
delete_board-IsConsistent ch now board_id s c = elim (delete_board_cases ch now board_id s) [
  | inl e ↦ subst IsConsistent (sym e) c
  | inr (free, e) ↦ subst IsConsistent (sym e) (
      with_boards-IsConsistent now (remove board_id s.boards) s c
        (remove-IsSorted board_id s.boards c.inventory.sorted)
        (AllEntries-remove board_id s.boards c.inventory.keyed)
        (λ k id h. ground (
          arith,
          contains_key-remove board_id k s.boards,
          held_listed s c k id h,
          check_idle_ne s c board_id k id free h,
          text_eq_iff board_id k,
        )))
]
