-- ===== src/Protocol/Serial/Grants.antt =====
-- Who may start a board, over any sequence of grants and revocations.
use ostool.Prelude.{
  ◌≡◌, ◌≢◌, refl, true, some, List, [], ◌∷◌, arith, All, Text, text_eq, text_eq_iff, text_eq_refl,
}
use ostool.Server.Outcome.{ok}
use ostool.Protocol.Serial.{
  SerialBinding, SerialBindingMode, LoaderSerialStatus, mode_eq, binding_eq, grant, revoke,
  permits_start,
}

pub data GrantRequest : Type 0 where
  to_grant : SerialBinding → GrantRequest
  to_revoke : Text → GrantRequest

unfoldable pub serve : GrantRequest → LoaderSerialStatus → LoaderSerialStatus
serve (to_grant binding) s = (grant binding s).1
serve (to_revoke id) s = (revoke id s).1

unfoldable pub serve_all : List GrantRequest → LoaderSerialStatus → LoaderSerialStatus
serve_all [] s = s
serve_all (r ∷ rs) s = serve_all rs (serve r s)

-- The request does not revoke the binding of this identifier.
abbrev pub IsForeign : Text → GrantRequest → Type 0
IsForeign id (to_grant binding) = Unit
IsForeign id (to_revoke revoked) = id ≢ revoked

mode_eq_eq : (x y : SerialBindingMode) → mode_eq x y ≡ true → x ≡ y
mode_eq_eq x y h = ground arith

binding_eq_eq : (x y : SerialBinding) → binding_eq x y ≡ true → x ≡ y
unfolding binding_eq
binding_eq_eq x y h = ground (
  arith,
  text_eq_iff x.serial_id y.serial_id,
  text_eq_iff x.binding_id y.binding_id,
  mode_eq_eq x.mode y.mode,
)

grant-keep :
    (binding b : SerialBinding) (s : LoaderSerialStatus)
    → s.binding ≡ some b
    → (grant binding s).1 ≡ s
unfolding grant
grant-keep binding b s held = ground (arith, binding_eq_eq b binding)

revoke-keep :
    (id : Text) (b : SerialBinding) (s : LoaderSerialStatus)
    → s.binding ≡ some b
    → b.binding_id ≢ id
    → (revoke id s).1 ≡ s
unfolding revoke
revoke-keep id b s held other = ground (arith, text_eq_iff b.binding_id id)

serve-keep :
    (r : GrantRequest) (b : SerialBinding) (s : LoaderSerialStatus)
    → s.binding ≡ some b
    → IsForeign b.binding_id r
    → serve r s ≡ s
unfolding serve
serve-keep (to_grant binding) b s held foreign = grant-keep binding b s held
serve-keep (to_revoke id) b s held foreign = revoke-keep id b s held foreign

serve_all-keep :
    (rs : List GrantRequest) (b : SerialBinding) (s : LoaderSerialStatus)
    → s.binding ≡ some b
    → All (IsForeign b.binding_id) rs
    → serve_all rs s ≡ s
unfolding serve_all
serve_all-keep [] b s held foreign = refl
serve_all-keep (r ∷ rs) b s held foreign =
    rw (serve-keep r b s held foreign.0) (serve_all-keep rs b s held foreign.1)

grant-sets :
    (binding : SerialBinding) (s : LoaderSerialStatus)
    → (grant binding s).0 ≡ ok tt
    → ((grant binding s).1.binding ≡ some binding)
      × ((grant binding s).1.serial_id ≡ binding.serial_id)
unfolding grant
grant-sets binding s granted = ground (arith, text_eq_iff binding.serial_id s.serial_id)

permits_start-held :
    (binding : SerialBinding) (s : LoaderSerialStatus) (id : Text)
    → s.binding ≡ some binding
    → s.serial_id ≡ binding.serial_id
    → permits_start id s ≡ text_eq binding.binding_id id
unfolding permits_start
permits_start-held binding s id held same =
    rw (held, same, text_eq_refl binding.serial_id) (ground arith)

-- A grant that succeeds gives the board to that binding, and to no other: whatever grants come after
-- it, from the same owner or from others, and whatever revocations of other bindings, the board may
-- start under the granted binding and under none of another identifier, until this binding is revoked.
pub grant-permits_start :
    (binding : SerialBinding) (s : LoaderSerialStatus) (rs : List GrantRequest)
    → (grant binding s).0 ≡ ok tt
    → All (IsForeign binding.binding_id) rs
    → (id : Text)
    → permits_start id (serve_all rs (grant binding s).1) ≡ text_eq binding.binding_id id
grant-permits_start binding s rs granted foreign id =
    let sets = grant-sets binding s granted in
    rw (serve_all-keep rs binding (grant binding s).1 sets.0 foreign)
      (permits_start-held binding (grant binding s).1 id sets.0 sets.1)
