-- ===== src/Server/State/Create/Laws.antt =====
-- How the creation of a session ends.
use ostool.Prelude.{
  ◌≡◌, refl, inl, inr, Bool, true, false, not, ◌&&◌, Option, none, some, List, [], ◌∷◌, map, arith,
  Bool-cases, Option-cases, and_true, Text, text_eq, text_eq_iff,
}
use mathlib.Core.Path.{subst}
use mathlib.Core.Option.{some-injective}
use ostool.Prelude.Map.{lookup, IsUnique, AllEntries, lookup-AllEntries, contains_key-lookup}
use ostool.Prelude.Map.Sorted.{IsSorted, IsSorted-IsUnique}
use ostool.Server.Outcome.{Result, ok, err, has, find, filter, find-passes}
use ostool.Server.BoardPool.{
  BoardConfig, Boards, values, BoardAllocationWithIdStatus, allocate_board,
  allocate_board_with_board_id, trim,
}
use ostool.Server.BoardPool.Laws.{
  serves, is_free, first_free, allocate_board-first_free, allocate_board_with_board_id_iff,
}
use ostool.Server.State.{
  BoardRuntimeState, Runtimes, AppState, is_idle, append_busy, unavailable_board_ids,
}
use ostool.Server.State.Create.{Turn, with_id, choose_board}

-- The inventory: the boards are in the order of their keys, every board stands under its identifier
-- and has a runtime.
pub record IsInventory (boards : Boards) (runtimes : Runtimes) : Type 0 where
  pub sorted : IsSorted boards
  pub keyed : AllEntries (λ k board. k ≡ board.id) boards
  pub runtime :
      (k : Text) (board : BoardConfig)
      → lookup k boards ≡ some board
      → (r : BoardRuntimeState) × (lookup k runtimes ≡ some r)

has-append_busy :
    (busy : BoardConfig → Bool) (boards : List BoardConfig) (ids : List Text) (id : Text)
    → has id (append_busy busy boards ids) ≡ false
    → has id ids ≡ false
unfolding append_busy has
has-append_busy busy [] ids id h = h
has-append_busy busy (b ∷ bs) ids id h = ground (arith, has-append_busy busy bs ids id)

-- A board outside the list of the leased ones has an idle runtime, if it has one.
idle_of_free :
    (k : Text) (m : Runtimes) (r : BoardRuntimeState)
    → has k (map (λ e. e.0) (filter (λ e. not (is_idle e.1.lease_state)) m)) ≡ false
    → lookup k m ≡ some r
    → is_idle r.lease_state ≡ true
unfolding has filter lookup
idle_of_free k [] r h e = absurd (cc)
idle_of_free k ((j, w) ∷ m) r h e = elim (Bool-cases (is_idle w.lease_state)) [
  | inl free ↦ elim (Bool-cases (text_eq j k)) [
    | inl same ↦ ground arith
    | inr other ↦ ground (arith, idle_of_free k m r)
  ]
  | inr leased ↦ elim (Bool-cases (text_eq j k)) [
    | inl same ↦ ground (arith, text_eq_iff j k, text_eq_iff k j)
    | inr other ↦ ground (arith, idle_of_free k m r)
  ]
]

lookup-find :
    (p : BoardConfig → Bool) (boards : Boards) (board : BoardConfig)
    → IsUnique boards
    → AllEntries (λ k b. k ≡ b.id) boards
    → find p (values boards) ≡ some board
    → lookup board.id boards ≡ some board
unfolding find lookup
lookup-find p [] board u k e = absurd (cc)
lookup-find p ((j, b) ∷ m) board u k e = elim (Bool-cases (p b)) [
  | inl passes ↦ ground (arith, text_eq_iff j board.id)
  | inr fails ↦
      let found : lookup board.id m ≡ some board = lookup-find p m board u.1 k.1 (rw fails at e) in
      ground (arith, found, text_eq_iff j board.id, contains_key-lookup board.id m found)
]

-- What a choice promises: a board of the inventory that can serve the request, with an idle runtime.
pub record Chosen (board_type : Text) (required_tags : List Text) (s : AppState)
    (board : BoardConfig) : Type 0 where
  pub known : lookup board.id s.boards ≡ some board
  pub able : serves board_type required_tags board ≡ true
  pub runtime : BoardRuntimeState
  pub has_runtime : lookup board.id s.board_runtimes ≡ some runtime
  pub free : is_idle runtime.lease_state ≡ true

chosen :
    (t : Turn) (board_type : Text) (required_tags : List Text) (s : AppState) (board : BoardConfig)
    → IsInventory s.boards s.board_runtimes
    → lookup board.id s.boards ≡ some board
    → (serves board_type required_tags board && is_free (unavailable_board_ids t.busy s) board)
      ≡ true
    → Chosen board_type required_tags s board
unfolding is_free unavailable_board_ids
chosen t board_type required_tags s board inv known able =
    let (r, e) = inv.runtime board.id board known in
    let serving = and_true able in
    record {
      known = known;
      able = serving.0;
      runtime = r;
      has_runtime = e;
      free =
          idle_of_free board.id s.board_runtimes r
            (has-append_busy t.busy (values s.boards) _ board.id (ground (arith, serving.1))) e;
    }

first_free_found :
    (boards : List BoardConfig) (leased : List Text) (board_type : Text) (required_tags : List Text)
    (board : BoardConfig)
    → first_free boards leased board_type required_tags ≡ ok board
    → find (λ b. serves board_type required_tags b && is_free leased b) boards ≡ some board
unfolding first_free
first_free_found boards leased board_type required_tags board e =
    elim (Option-cases (find (λ b. serves board_type required_tags b && is_free leased b) boards)) [
      | inl n ↦ ground arith
      | inr (b, f) ↦ ground arith
    ]

choose_board-first_free :
    (t : Turn) (board_type : Text) (required_tags : List Text) (s : AppState) (board : BoardConfig)
    → choose_board t board_type none required_tags s ≡ some (ok board)
    → first_free (values s.boards) (unavailable_board_ids t.busy s) board_type required_tags
      ≡ ok board
unfolding choose_board
choose_board-first_free t board_type required_tags s board e = ground (
  arith,
  allocate_board-first_free s.boards (unavailable_board_ids t.busy s) board_type required_tags,
)

-- Whether or not a board is asked for, what is chosen is a board of the inventory that can serve the
-- request and whose runtime is idle.
pub choose_board-Chosen :
    (t : Turn) (board_type : Text) (board_id : Option Text) (required_tags : List Text)
    (s : AppState) (board : BoardConfig)
    → IsInventory s.boards s.board_runtimes
    → choose_board t board_type board_id required_tags s ≡ some (ok board)
    → Chosen board_type required_tags s board
choose_board-Chosen t board_type none required_tags s board inv e =
    let found =
      first_free_found (values s.boards) (unavailable_board_ids t.busy s) board_type required_tags
        board (choose_board-first_free t board_type required_tags s board e) in
    chosen t board_type required_tags s board inv
      (lookup-find _ s.boards board (IsSorted-IsUnique s.boards inv.sorted) inv.keyed found)
      (find-passes _ (values s.boards) found)
choose_board-Chosen t board_type (some board_id) required_tags s board inv e =
    let allocated : allocate_board_with_board_id s.boards (unavailable_board_ids t.busy s)
          board_type board_id required_tags
        ≡ ok board =
      some-injective _ _ (unfold choose_board in e) in
    let (known, able) =
      (allocate_board_with_board_id_iff s.boards (unavailable_board_ids t.busy s) board_type
          board_id required_tags board).0
        allocated in
    chosen t board_type required_tags s board inv
      (subst (λ k. lookup k s.boards ≡ some board)
        (lookup-AllEntries (λ k b. k ≡ b.id) (trim board_id) s.boards inv.keyed known) known)
      able

pub choose_board-total :
    (t : Turn) (board_type : Text) (board_id : Option Text) (required_tags : List Text)
    (s : AppState)
    → (r : Result BoardAllocationWithIdStatus BoardConfig) × (choose_board t board_type board_id
          required_tags s
        ≡ some r)
unfolding choose_board
choose_board-total t board_type none required_tags s =
    elim (first_free (values s.boards) (unavailable_board_ids t.busy s) board_type required_tags)
        as (λ f.
          allocate_board s.boards (unavailable_board_ids t.busy s) board_type required_tags ≡ some f
          → (r : Result BoardAllocationWithIdStatus BoardConfig) × (choose_board t board_type none
                required_tags s
              ≡ some r)) [
                | ok board ↦ λ e. (ok board, rw (e, choose_board))
                | err status ↦ λ e. (err (with_id status), rw (e, choose_board))
              ]
      (allocate_board-first_free s.boards (unavailable_board_ids t.busy s) board_type required_tags)
choose_board-total t board_type (some board_id) required_tags s = (_, refl)
