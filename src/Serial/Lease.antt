-- ===== src/Serial/Lease.antt =====
-- ostool-serial/src/lib.rs: the lease of a port as its holder uses it: reading, writing, flushing,
-- another configuration, and the identifier that the board announces anew. The stream is what its
-- owner's calls of it give: pending, or a result with the bytes that were read. `Invalidate` is the
-- command that a call sends to the actor, if it sends one.
pub mod Reads
pub mod Order
use ostool.Prelude.{
  ℕ, zero, suc, ◌+◌, ◌-◌, ◌*◌, ◌/◌, ◌%◌, ◌^◌, ◌≤◌, ◌<◌, min, ◌≡◌, ◌≢◌, ◌↔◌, ◌⊎◌, refl, sym, ap, ◌∙◌,
  inl, inr, Bool, true, false, not, ◌&&◌, ◌||◌, Option, none, some, List, [], ◌∷◌, ◌++◌, map,
  append-nil, append_assoc, arith, ltb, leb, ◌==◌, if◌then◌else◌, ltb→lt, lt→ltb, ==_iff, ==_refl,
  Bool-cases, Option-cases, and_true, length, get_elem?, get_or, take, drop, replicate, All,
  length-append, All-append, IsByte, Text, codes, text_eq, text_eq_iff, text_eq_refl, text_lt,
}
use ostool.Server.Outcome.{Result, ok, err, is_empty}
use ostool.Protocol.Serial.{SerialFrameDecoder, new_decoder, push}
use ostool.Serial.Ports.{SerialLease}
use ostool.Serial.Discovery.{Command, invalidate}
use ostool.Serial.Scan.{IoError}

pub data Poll (A : Type 0) : Type 0 where
  pending : Poll A
  ready : A → Poll A

-- The part of `SerialLease` that reading changes.
pub record Reader : Type 0 where
  pub prefix : List ℕ
  pub decoder : SerialFrameDecoder
  pub observed : Option Text

-- A call of `poll_read`: its end, the bytes that it has put out, whether it has called the stream, the
-- commands it has sent, and the reader behind it.
pub record ReadPoll : Type 0 where
  pub outcome : Poll (Result IoError (Unit {0}))
  pub bytes : List ℕ
  pub asked : Bool
  pub commands : List Command
  pub reader : Reader

-- `on_found` gives the scan's history as the prefix.
abbrev pub new_reader : List ℕ → Reader
new_reader prefix = record { prefix = prefix; decoder = new_decoder; observed = none }

-- The loop over the prefix: what fits, and what stays.
unfoldable pub pop_prefix : ℕ → List ℕ → List ℕ × List ℕ
pop_prefix zero prefix = ([], prefix)
pop_prefix (suc room) [] = ([], [])
pop_prefix (suc room) (b ∷ bs) = let rest = pop_prefix room bs in (b ∷ rest.0, rest.1)

abbrev pub latest : Option Text → Option Text → Option Text
latest none observed = observed
latest (some id) observed = some id

-- The loop over the bytes that the stream has given.
unfoldable pub observe : List ℕ → Reader → Reader
observe [] r = r
observe (b ∷ bs) r =
    observe bs (record r {
      decoder = (push b r.decoder).1;
      observed = latest (push b r.decoder).0 r.observed;
    })

module _ (lease : SerialLease) where
  unfoldable pub poll_stream : ℕ → Poll (Result IoError (List ℕ)) → Reader → ReadPoll
  poll_stream room pending r = record {
    outcome = pending;
    bytes = [];
    asked = true;
    commands = [];
    reader = r;
  }
  poll_stream room (ready (err e)) r = record {
    outcome = ready (err e);
    bytes = [];
    asked = true;
    commands = invalidate lease.mac ∷ [];
    reader = r;
  }
  poll_stream room (ready (ok bytes)) r = record {
    outcome = ready (ok tt);
    bytes = bytes;
    asked = true;
    commands = if is_empty bytes && ltb 0 room then invalidate lease.mac ∷ [] else [];
    reader = observe bytes r;
  }

  unfoldable pub poll_read : ℕ → Poll (Result IoError (List ℕ)) → Reader → ReadPoll
  poll_read room answer r =
      if not (is_empty r.prefix)
      then record {
        outcome = ready (ok tt);
        bytes = (pop_prefix room r.prefix).0;
        asked = false;
        commands = [];
        reader = record r { prefix = (pop_prefix room r.prefix).1 };
      }
      else poll_stream room answer r

  -- `poll_write` and `poll_flush`: the commands that they send.
  unfoldable pub poll_write : {A : Type 0} → Poll (Result IoError A) → List Command
  poll_write pending = []
  poll_write (ready (ok a)) = []
  poll_write (ready (err e)) = invalidate lease.mac ∷ []

unfoldable pub configure : Reader → Reader
configure r = record r { decoder = new_decoder; observed = none }

unfoldable pub take_observed_id : Reader → Option Text × Reader
take_observed_id r = (r.observed, record r { observed = none })
