-- ===== src/Auth/TokenRequests/Replays.antt =====
-- internal/auth/auth.go: what the set of nonces keeps out.
use ably_server.Base.{
  ℕ, ◌+◌, ◌*◌, ◌≤◌, ◌<◌, ◌≡◌, ◌⊎◌, refl, sym, ap, ◌∙◌, inl, inr, true, false, not, [], ◌∷◌, Option,
  some, Bytes, arith, Bool-cases, Option-cases, ltb, lt→ltb, bytes_eq, bytes_eq_iff, pos, Assoc,
  lookup, lookup-insert, lookup-insert_self, Result, ok, err, ◌>>=◌,
}
use ably_server.Storage.{is_blank}
use ably_server.Auth.TokenRequests.{
  AuthError, timestamp_not_current, nonce_replayed, ApiKey, TokenRequest, is_unset, window,
  millisecond, Nonces, reap, is_due, swept, is_live, record_nonce, is_current, check_timestamp,
  check_nonce, check_mac, then_nonce, validate_token_request,
}

lookup-reap :
    (now : ℕ) (nonce : Bytes) (expiry : ℕ) (m : Assoc ℕ)
    → lookup nonce m ≡ some expiry
    → now ≤ expiry
    → lookup nonce (reap now m) ≡ some expiry
unfolding lookup reap
lookup-reap now nonce expiry [] h l = absurd (ground arith)
lookup-reap now nonce expiry ((n, e) ∷ m) h l = ground (arith, lookup-reap now nonce expiry m)

lookup-swept :
    (now : ℕ) (nonce : Bytes) (expiry : ℕ) (st : Nonces)
    → lookup nonce st.seen ≡ some expiry
    → now ≤ expiry
    → lookup nonce (swept now st).seen ≡ some expiry
unfolding swept
lookup-swept now nonce expiry st h l = elim (Bool-cases (is_due now st.reaped)) [
  | inl due ↦ rw due (lookup-reap now nonce expiry st.seen h l)
  | inr fresh ↦ rw fresh h
]

-- A nonce that is kept past a reading is kept by what is recorded at the reading.
lookup-record_nonce :
    (now : ℕ) (other nonce : Bytes) (expiry : ℕ) (st : Nonces)
    → lookup nonce st.seen ≡ some expiry
    → now < expiry
    → lookup nonce (record_nonce now other st).1.seen ≡ some expiry
unfolding record_nonce
lookup-record_nonce now other nonce expiry st h l =
    let there = lookup-swept now nonce expiry st h (omega arith) in
    elim (Bool-cases (is_live now (lookup other (swept now st).seen))) [
      | inl live ↦ rw live there
      | inr gone ↦ rw gone (
          rw lookup-insert (elim (Bool-cases (bytes_eq other nonce)) [
            | inr different ↦ rw different there
            | inl same ↦
                let e = (bytes_eq_iff other nonce).0 same in
                let live : is_live now (lookup other (swept now st).seen) ≡ true =
                  rw e (rw there (lt→ltb now expiry l)) in
                absurd (ground (arith, live, gone))
          ]))
    ]

record_nonce-refused :
    (now : ℕ) (nonce : Bytes) (expiry : ℕ) (st : Nonces)
    → lookup nonce st.seen ≡ some expiry
    → now < expiry
    → (record_nonce now nonce st).0 ≡ false
unfolding record_nonce
record_nonce-refused now nonce expiry st h l =
    rw (lookup-swept now nonce expiry st h (omega arith)) (rw (lt→ltb now expiry l) refl)

record_nonce-kept :
    (now : ℕ) (nonce : Bytes) (st : Nonces)
    → (record_nonce now nonce st).0 ≡ true
    → lookup nonce (record_nonce now nonce st).1.seen ≡ some (now + window)
unfolding record_nonce
record_nonce-kept now nonce st h =
    elim (Bool-cases (is_live now (lookup nonce (swept now st).seen))) [
      | inl live ↦ absurd (ground (arith, live, h))
      | inr gone ↦ rw gone (lookup-insert_self nonce (now + window) (swept now st).seen)
    ]

-- At the end of the time that it is kept for, a nonce is recorded again.
record_nonce-again :
    (now : ℕ) (nonce : Bytes) (st : Nonces)
    → lookup nonce st.seen ≡ some now
    → (record_nonce now nonce st).0 ≡ true
unfolding record_nonce
record_nonce-again now nonce st h =
    let late : ltb now now ≡ false = ground arith in
    rw (lookup-swept now nonce now st h (omega arith)) (rw late refl)

module _ (by_name : Assoc ApiKey) (mac_of : Bytes → Bytes → Bytes) where
  -- Token requests that are validated one after another, their nonces by clock readings up to `until`.
  pub data Calls (until : ℕ) (st : Nonces) : Nonces → Type 0 where
    none_yet : Calls until st st
    another :
        {d : Nonces} (now later : ℕ) (tr : TokenRequest) (presented : Option Bytes)
        → later ≤ until
        → Calls until st d
        → Calls until st (validate_token_request by_name mac_of now later tr presented d).1

  lookup-validate :
      (now later : ℕ) (tr : TokenRequest) (presented : Option Bytes) (nonce : Bytes) (expiry : ℕ)
      (st : Nonces)
      → lookup nonce st.seen ≡ some expiry
      → later < expiry
      → lookup nonce (validate_token_request by_name mac_of now later tr presented st).1.seen
        ≡ some expiry
  unfolding validate_token_request check_nonce
  lookup-validate now later tr presented nonce expiry st h l = go (
      check_mac by_name mac_of tr presented >>= λ _.
      check_timestamp (not (is_blank tr.mac)) now tr.timestamp)
    where
      go :
          (r : Result AuthError (Unit {0}))
          → lookup nonce
              (then_nonce by_name mac_of r
                (check_nonce (not (is_blank tr.mac)) later tr.nonce st)
                st).1.seen
            ≡ some expiry
      go (err e) = h
      go (ok _) = elim (Bool-cases (is_blank tr.nonce)) [
        | inl blank ↦ rw blank h
        | inr given ↦ rw given (lookup-record_nonce later tr.nonce nonce expiry st h l)
      ]

  Calls-lookup :
      (nonce : Bytes) (expiry until : ℕ) {st d : Nonces}
      → until < expiry
      → lookup nonce st.seen ≡ some expiry
      → Calls until st d
      → lookup nonce d.seen ≡ some expiry
  Calls-lookup nonce expiry until l h none_yet = h
  Calls-lookup nonce expiry until l h (another {d = d} now later tr presented b c) =
      lookup-validate now later tr presented nonce expiry d (Calls-lookup nonce expiry until l h c)
        (omega arith)

  -- What an accepted request with a code has passed.
  record IsAccepted (now later : ℕ) (tr : TokenRequest) (presented : Option Bytes) (st : Nonces)
      : Type 0 where
    coded : check_mac by_name mac_of tr presented ≡ ok tt
    dated : is_unset tr.timestamp ≡ false
    current : is_current now tr.timestamp ≡ true
    named : is_blank tr.nonce ≡ false
    recorded : (record_nonce later tr.nonce st).0 ≡ true
    after :
        (validate_token_request by_name mac_of now later tr presented st).1
        ≡ (record_nonce later tr.nonce st).1

  accepted :
      (now later : ℕ) (tr : TokenRequest) (presented : Option Bytes) (st : Nonces)
      → is_blank tr.mac ≡ false
      → (validate_token_request by_name mac_of now later tr presented st).0 ≡ ok tt
      → IsAccepted now later tr presented st
  unfolding validate_token_request check_timestamp check_nonce
  accepted now later tr presented st signed h = go (check_mac by_name mac_of tr presented) refl
    where
      go :
          (r : Result AuthError (Unit {0}))
          → check_mac by_name mac_of tr presented ≡ r
          → IsAccepted now later tr presented st
      go (err e) c = absurd (ground (arith, h, c))
      go (ok _) c = record {
        coded = c;
        dated = ground (arith, h, c, signed);
        current = ground (arith, h, c, signed);
        named = ground (arith, h, c, signed);
        recorded = ground (arith, h, c, signed);
        after = ground (arith, h, c, signed);
      }

  -- A signed request whose code is right and whose nonce is not recorded again is refused.
  refused :
      (now later : ℕ) (tr : TokenRequest) (presented : Option Bytes) (st : Nonces)
      → check_mac by_name mac_of tr presented ≡ ok tt
      → is_unset tr.timestamp ≡ false
      → is_blank tr.nonce ≡ false
      → (is_current now tr.timestamp ≡ true → (record_nonce later tr.nonce st).0 ≡ false)
      → ((validate_token_request by_name mac_of now later tr presented st).0
          ≡ err timestamp_not_current)
        ⊎ ((validate_token_request by_name mac_of now later tr presented st).0 ≡ err nonce_replayed)
  unfolding validate_token_request check_timestamp check_nonce
  refused now later tr presented st coded dated named h =
      elim (Bool-cases (is_current now tr.timestamp)) [
        | inl current ↦ inr (rw (coded, dated) (rw (current, named) (rw (h current) refl)))
        | inr stale ↦ inl (rw (coded, dated) (rw stale refl))
      ]

  passes_again :
      (now later : ℕ) (tr : TokenRequest) (presented : Option Bytes) (st : Nonces)
      → check_mac by_name mac_of tr presented ≡ ok tt
      → is_unset tr.timestamp ≡ false
      → is_blank tr.nonce ≡ false
      → is_current now tr.timestamp ≡ true
      → (record_nonce later tr.nonce st).0 ≡ true
      → (validate_token_request by_name mac_of now later tr presented st).0 ≡ ok tt
  unfolding validate_token_request check_timestamp check_nonce
  passes_again now later tr presented st coded dated named current recorded =
      rw (coded, dated) (rw (current, named) (rw recorded refl))

  -- The code of a signed request does not depend on what else is presented.
  coded_alike :
      (tr : TokenRequest) (presented again : Option Bytes)
      → is_blank tr.mac ≡ false
      → check_mac by_name mac_of tr presented ≡ check_mac by_name mac_of tr again
  unfolding check_mac
  coded_alike tr presented again signed = elim (Option-cases (lookup tr.key_name by_name)) [
    | inl unknown ↦ rw (unknown, check_mac) refl
    | inr (k, known) ↦ rw (known, check_mac) (rw signed refl)
  ]

  -- A signed token request that was accepted once is refused from then on, whatever other requests
  -- are validated in between, as not current or as replayed, when at its acceptance it was older
  -- than the time between the two clock readings of its later validation.
  pub validate_token_request-refused :
      (now later : ℕ) (tr : TokenRequest) (presented : Option Bytes) (st : Nonces) (t : ℕ)
      (now' later' : ℕ) (presented' : Option Bytes) (st' : Nonces)
      → is_blank tr.mac ≡ false
      → tr.timestamp ≡ pos t
      → (validate_token_request by_name mac_of now later tr presented st).0 ≡ ok tt
      → Calls later' (validate_token_request by_name mac_of now later tr presented st).1 st'
      → t * millisecond + later' < later + now'
      → ((validate_token_request by_name mac_of now' later' tr presented' st').0
          ≡ err timestamp_not_current)
        ⊎ ((validate_token_request by_name mac_of now' later' tr presented' st').0
            ≡ err nonce_replayed)
  validate_token_request-refused now later tr presented st t now' later' presented' st' signed dated
        first calls aged =
      let a = accepted now later tr presented st signed first in
      refused now' later' tr presented' st' (coded_alike tr presented' presented signed ∙ a.coded)
        a.dated a.named
        (λ current.
          let c : is_current now' (pos t) ≡ true = ap (is_current now') (sym dated) ∙ current in
          let soon : later' < later + window = unfold is_current in ground (arith, c, aged) in
          let kept =
            ap (λ (d : Nonces). lookup tr.nonce d.seen) a.after
            ∙ record_nonce-kept later tr.nonce st a.recorded in
          record_nonce-refused later' tr.nonce (later + window) st'
            (Calls-lookup tr.nonce (later + window) later' soon kept calls) soon)

  -- A signed token request whose timestamp is not before its acceptance, as from a client whose
  -- clock is ahead, is accepted again two minutes after it.
  pub validate_token_request-again :
      (now later : ℕ) (tr : TokenRequest) (presented presented' : Option Bytes) (st : Nonces)
      (t : ℕ)
      → is_blank tr.mac ≡ false
      → tr.timestamp ≡ pos t
      → now ≤ later
      → later ≤ t * millisecond
      → (validate_token_request by_name mac_of now later tr presented st).0 ≡ ok tt
      → (validate_token_request by_name mac_of
          (later + window)
          (later + window)
          tr
          presented'
          (validate_token_request by_name mac_of now later tr presented st).1).0
        ≡ ok tt
  validate_token_request-again now later tr presented presented' st t signed dated order ahead
        first =
      let a = accepted now later tr presented st signed first in
      let c : is_current now (pos t) ≡ true = ap (is_current now) (sym dated) ∙ a.current in
      let near : t * millisecond ≤ now + window = unfold is_current in ground (arith, c) in
      passes_again (later + window) (later + window) tr presented' _
        (coded_alike tr presented' presented signed ∙ a.coded) a.dated a.named
        (ap (is_current (later + window)) dated
          ∙ (unfold is_current in ground (arith, near, ahead, order)))
        (record_nonce-again (later + window) tr.nonce _ (
          ap (λ (d : Nonces). lookup tr.nonce d.seen) a.after
          ∙ record_nonce-kept later tr.nonce st a.recorded))
