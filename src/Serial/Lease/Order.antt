-- ===== src/Serial/Lease/Order.antt =====
-- What the holder of a lease gets to read, over any calls in any order.
use ostool.Prelude.{not, ◌&&◌, ◌||◌, arith}
use ostool.Prelude.{
  ℕ, ◌≡◌, ◌≢◌, refl, sym, ap, ◌∙◌, true, false, some, List, [], ◌∷◌, ◌++◌, append-nil, append_assoc,
  Text,
}
use mathlib.Core.Path.{subst}
use ostool.Prelude.Split.{split}
use ostool.Server.Outcome.{Result, ok, err, is_empty, has}
use ostool.Protocol.Serial.{new_decoder, newline}
use ostool.Protocol.Serial.Decoder.{ids_of, complete, decode_lem}
use ostool.Serial.Ports.{SerialLease}
use ostool.Serial.Scan.{IoError}
use ostool.Serial.Sound.{if-cases}
use ostool.Serial.Scan.Heard.{feed, feed-append}
use ostool.Serial.Lease.{
  Poll, ReadPoll, pending, ready, pop_prefix, observe, poll_stream, poll_read, configure,
  take_observed_id,
}
use ostool.Serial.Lease.Reads.{
  Call, read, reconfigure, take_id, Use, add_read, new_use, call, call_all, pop_prefix-append,
  prefix-observe, decoder-observe, IsGiven, observe-IsGiven,
}

-- What holds of a lease that was given with this prefix, after any calls.
record IsUsed (prefix : List ℕ) (u : Use) : Type 0 where
  in_order : u.delivered ++ u.reader.prefix ≡ prefix ++ u.fresh
  prefix_first : is_empty u.reader.prefix ≡ false → u.fresh ≡ []
  patient : u.disturbed ≡ false
  decoded : u.reader.decoder ≡ feed u.fresh_since new_decoder
  given_lately : IsGiven u.fresh_since u.reader.observed

-- Nothing of the prefix is left.
no_prefix : (xs : List ℕ) → is_empty xs ≡ true → xs ≡ []
unfolding is_empty
no_prefix [] e = refl
no_prefix (x ∷ xs) e = absurd (cc)

not_left : is_empty {A = ℕ} [] ≢ false
unfolding is_empty
not_left e = absurd (cc)

module _ (lease : SerialLease) (prefix : List ℕ) where
  -- A read that puts out what comes next, of the prefix.
  of_prefix :
      (room : ℕ) (answer : Poll (Result IoError (List ℕ))) (u : Use)
      → is_empty u.reader.prefix ≡ false
      → IsUsed prefix u
      → IsUsed prefix (
          add_read answer
            (record {
              outcome = ready (ok tt);
              bytes = (pop_prefix room u.reader.prefix).0;
              asked = false;
              commands = [];
              reader = record u.reader { prefix = (pop_prefix room u.reader.prefix).1 };
            })
            u)
  unfolding is_empty
  of_prefix room answer u some_left h = record {
    in_order =
        append_assoc u.delivered (pop_prefix room u.reader.prefix).0
          (pop_prefix room u.reader.prefix).1
        ∙ ap (λ xs. u.delivered ++ xs) (pop_prefix-append room u.reader.prefix)
        ∙ h.in_order
        ∙ ap (λ xs. prefix ++ xs) (sym (append-nil u.fresh));
    prefix_first = λ e. append-nil u.fresh ∙ h.prefix_first some_left;
    patient = ground (arith, h.patient);
    decoded = rw (append-nil u.fresh_since) h.decoded;
    given_lately = rw (append-nil u.fresh_since) h.given_lately;
  }

  -- A read that the stream answers without bytes.
  of_nothing :
      (u : Use)
      → is_empty u.reader.prefix ≡ true
      → IsUsed prefix u
      → IsUsed prefix (record {
        reader = u.reader;
        delivered = u.delivered ++ [];
        fresh = u.fresh ++ [];
        fresh_since = u.fresh_since ++ [];
        disturbed = u.disturbed || (true && not (is_empty u.reader.prefix));
      })
  of_nothing u gone h = record {
    in_order = rw (append-nil u.delivered, append-nil u.fresh) h.in_order;
    prefix_first = λ e. append-nil u.fresh ∙ h.prefix_first e;
    patient = ground (arith, h.patient);
    decoded = rw (append-nil u.fresh_since) h.decoded;
    given_lately = rw (append-nil u.fresh_since) h.given_lately;
  }

  of_stream :
      (room : ℕ) (answer : Poll (Result IoError (List ℕ))) (u : Use)
      → is_empty u.reader.prefix ≡ true
      → IsUsed prefix u
      → IsUsed prefix (add_read answer (poll_stream lease room answer u.reader) u)
  unfolding poll_stream
  of_stream room pending u gone h = of_nothing u gone h
  of_stream room (ready (err e)) u gone h = of_nothing u gone h
  of_stream room (ready (ok bytes)) u gone h = record {
    in_order =
        ap (λ xs. (u.delivered ++ bytes) ++ xs) behind
        ∙ append-nil (u.delivered ++ bytes)
        ∙ ap (λ xs. xs ++ bytes) whole
        ∙ append_assoc prefix u.fresh bytes;
    prefix_first = λ e. absurd (not_left (subst (λ xs. is_empty xs ≡ false) behind e));
    patient = ground (arith, h.patient);
    decoded =
        decoder-observe bytes u.reader
        ∙ ap (feed bytes) h.decoded
        ∙ sym (feed-append u.fresh_since bytes new_decoder);
    given_lately = observe-IsGiven bytes u.fresh_since u.reader h.decoded h.given_lately;
  }
    where
      before : u.reader.prefix ≡ []
      before = no_prefix u.reader.prefix gone

      behind : (observe bytes u.reader).prefix ≡ []
      behind = prefix-observe bytes u.reader ∙ before

      whole : u.delivered ≡ prefix ++ u.fresh
      whole = sym (append-nil u.delivered) ∙ ap (λ xs. u.delivered ++ xs) (sym before) ∙ h.in_order

  read-IsUsed :
      (room : ℕ) (answer : Poll (Result IoError (List ℕ))) (u : Use)
      → IsUsed prefix u
      → IsUsed prefix (add_read answer (poll_read lease room answer u.reader) u)
  unfolding poll_read
  read-IsUsed room answer u h =
      if-cases (λ (p : ReadPoll). IsUsed prefix (add_read answer p u))
        (not (is_empty u.reader.prefix)) (λ t. of_prefix room answer u (ground arith) h)
        (λ f. of_stream room answer u (ground arith) h)

  call-IsUsed : (c : Call) (u : Use) → IsUsed prefix u → IsUsed prefix (call lease c u)
  unfolding call configure take_observed_id feed
  call-IsUsed (read room answer) u h = read-IsUsed room answer u h
  call-IsUsed reconfigure u h = record {
    in_order = h.in_order;
    prefix_first = h.prefix_first;
    patient = h.patient;
    decoded = refl;
    given_lately = λ id e. absurd (cc);
  }
  call-IsUsed take_id u h = record {
    in_order = h.in_order;
    prefix_first = h.prefix_first;
    patient = h.patient;
    decoded = h.decoded;
    given_lately = λ id e. absurd (cc);
  }

  call_all-IsUsed :
      (cs : List Call) (u : Use) → IsUsed prefix u → IsUsed prefix (call_all lease cs u)
  unfolding call_all
  call_all-IsUsed [] u h = h
  call_all-IsUsed (c ∷ cs) u h = call_all-IsUsed cs (call lease c u) (call-IsUsed c u h)

  new_use-IsUsed : IsUsed prefix (new_use prefix)
  unfolding feed
  new_use-IsUsed = record {
    in_order = sym (append-nil prefix);
    prefix_first = λ e. refl;
    patient = refl;
    decoded = refl;
    given_lately = λ id e. absurd (cc);
  }

  -- Whatever calls the holder of a lease makes, in any order and with any room, and whatever the
  -- stream answers: what has been read and what is left of the prefix is the prefix and then what the
  -- stream has given, nothing lost, doubled or out of order; while bytes of the prefix are left, every
  -- read succeeds at once, without the stream and without a command; and an identifier that waits to be
  -- taken is a whole line of what the stream has given since the last configuration, so that nothing of
  -- the prefix shows a boot.
  pub call_all-in_order :
      (cs : List Call)
      → let u = call_all lease cs (new_use prefix) in
        (u.delivered ++ u.reader.prefix ≡ prefix ++ u.fresh)
        × (is_empty u.reader.prefix ≡ false → u.fresh ≡ [])
        × (u.disturbed ≡ false)
        × ((id : Text)
            → u.reader.observed ≡ some id
            → has id (ids_of (complete (split newline u.fresh_since))) ≡ true)
  call_all-in_order cs =
      let h = call_all-IsUsed cs (new_use prefix) new_use-IsUsed in
      (
        h.in_order,
        h.prefix_first,
        h.patient,
        λ id e.
            subst (λ ids. has id ids ≡ true)
              (decode_lem (call_all lease cs (new_use prefix)).fresh_since) (h.given_lately id e),
      )
