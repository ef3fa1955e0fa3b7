-- ===== src/Race/Verdict.antt =====
-- `ft_lan_transfer_auth` as a whole: it ends, loses no socket, and returns only a peer with the key.
use sync_clipboard.Prelude.{
  &&-eq-true, Bool, Bool-cases, Bytes, List, Option, [], ap, arith, false, inl, inr, le→ltb, ltb,
  none, refl, some, subst, suc, sym, true, zero, ℕ, ◌&&◌, ◌<◌, ◌∙◌, ◌∷◌, ◌≡◌, ◌≢◌, ◌≤◌, ◌⊎◌,
}
use sync_clipboard.Net.{Ret, World, done, fail, undefined}
use sync_clipboard.Auth.{auth_recv}
use sync_clipboard.Race.{Race, Round, close_slots, is_nil, is_none, start}
use sync_clipboard.Race.Keyed.{
  Identity, authenticates, lan_transfer_auth, loop_auth, round_auth, succeeded,
}
use sync_clipboard.Race.Vouched.{Passed, Passed-later, Passes-Passed, round_auth-Passes}
use sync_clipboard.Auth.Judge.{Admitted, Refused, auth_recv-Ends}
use sync_clipboard.Net.Sound.{Ends}
use sync_clipboard.Race.Count.{none_of}
use sync_clipboard.Race.Ending.{Ended, Ended-Settled, Ended-after, Ended-close, Settled}
use sync_clipboard.Race.Plain.{lan_transfer-Settled}
use sync_clipboard.Race.Trusted.{round_auth-Balanced}

loop_auth-Ended :
    (fuel n : ℕ) (rounds : ℕ → Round) (self : Identity) (listening : Bool) (timeout : ℕ)
    (race : Race)
    → n < fuel
    → timeout ≤ (rounds n).now
    → Ended race (loop_auth fuel rounds self listening timeout race)
unfolding loop_auth
loop_auth-Ended zero n rounds self listening timeout race lt h = absurd (omega arith)
loop_auth-Ended (suc fuel) zero rounds self listening timeout race lt h =
    let late : ltb (rounds 0).now timeout ≡ false = le→ltb (rounds 0).now timeout h in
    elim (Bool-cases (is_none race.result)) [
      | inl e ↦ rw (e, late, loop_auth) (Ended-close race)
      | inr e ↦ rw (e, loop_auth) (Ended-close race)
    ]
loop_auth-Ended (suc fuel) (suc n) rounds self listening timeout race lt h =
    elim (Bool-cases (is_none race.result && ltb (rounds 0).now timeout)) [
      | inr e ↦ rw (e, loop_auth) (Ended-close race)
      | inl e ↦
          rw (e, loop_auth)
            (Ended-after
              (round_auth-Balanced self listening (rounds 0) race
                (none_of race.result (&&-eq-true (is_none race.result) _ e).0))
              (loop_auth-Ended fuel n (λ k. rounds (suc k)) self listening timeout
                (round_auth self listening (rounds 0) race) (omega arith) h))
    ]

-- `ft_lan_transfer_auth` ends in the first turn at whose head the clock is past the time-out, if not
-- before, and then each socket that it was given or has accepted is closed or is the one that it
-- returns, exactly once. This holds with and without a key.
pub lan_transfer_auth-Settled :
    (fuel n : ℕ) (rounds : ℕ → Round) (self : Identity) (listening : Bool) (conns : List (Option ℕ))
    (nat : Option ℕ) (timeout : ℕ)
    → n < fuel
    → timeout ≤ (rounds n).now
    → Settled conns nat (lan_transfer_auth fuel rounds self listening conns nat timeout)
unfolding lan_transfer_auth
lan_transfer_auth-Settled fuel n rounds self listening conns nat timeout lt h =
    elim (Bool-cases (is_nil self.key_hex)) [
      | inl e ↦ rw (e, lan_transfer_auth) (lan_transfer-Settled rounds listening conns nat timeout)
      | inr e ↦
          rw (e, lan_transfer_auth)
            (Ended-Settled conns nat
              (loop_auth-Ended fuel n rounds self listening timeout (start conns nat) lt h))
    ]

loop_auth-Passed :
    (fuel : ℕ) (rounds : ℕ → Round) (self : Identity) (listening : Bool) (timeout : ℕ)
    (race out : Race)
    → loop_auth fuel rounds self listening timeout race ≡ some out
    → (out.result ≡ race.result) ⊎ Passed self rounds out.result
unfolding loop_auth close_slots
loop_auth-Passed zero rounds self listening timeout race out h = cc
loop_auth-Passed (suc fuel) rounds self listening timeout race out h =
    elim (Bool-cases (is_none race.result && ltb (rounds 0).now timeout)) [
      | inr e ↦
          let closed : some (close_slots race) ≡ some out = rw e at h in
          let same_race : close_slots race ≡ out = cc in inl (sym (ap (λ r. r.result) same_race))
      | inl e ↦
          let next = round_auth self listening (rounds 0) race in
          let went : loop_auth fuel (λ k. rounds (suc k)) self listening timeout next ≡ some out =
            rw e at h in
          let free : race.result ≡ none =
            none_of race.result (&&-eq-true (is_none race.result) _ e).0 in
          elim (loop_auth-Passed fuel (λ k. rounds (suc k)) self listening timeout next out went) [
            | inl same_result ↦ inr (
                subst (Passed self rounds) (sym same_result) (
                  Passes-Passed self rounds next.result
                    (round_auth-Passes self listening (rounds 0) race free)))
            | inr later ↦ inr (Passed-later self rounds out.result later)
          ]
    ]

authenticates-Admitted :
    (self : Identity) (w : World)
    → self.is_sender ≡ false
    → authenticates self w ≡ true
    → (w' : World) × Admitted self.hmac self.file_id self.key_hex w tt w'
unfolding authenticates
authenticates-Admitted self w e h =
    admitted (auth_recv self.hmac self.file_id self.key_hex w)
      (auth_recv-Ends self.hmac self.file_id self.key_hex w) (rw (e, authenticates) at h)
  where
    admitted :
        (r : Ret (Unit {0}) × World)
        → Ends
            (Admitted self.hmac self.file_id self.key_hex w)
            (Refused self.hmac self.file_id self.key_hex w)
            ⊥
            r
        → succeeded r.0 ≡ true
        → (w' : World) × Admitted self.hmac self.file_id self.key_hex w tt w'
    admitted (done tt, w') a k = (w', a)
    admitted (fail, w') a k = cc
    admitted (undefined, w') a k = absurd a

-- With a key, a socket that `ft_lan_transfer_auth` returns to a receiver belongs to a peer that has
-- sent, in one of the rounds, the proof that the key and the file id give, and was answered "AKOK".
pub lan_transfer_auth-Admitted :
    (fuel : ℕ) (rounds : ℕ → Round) (self : Identity) (listening : Bool) (conns : List (Option ℕ))
    (nat : Option ℕ) (timeout s : ℕ) (out : Race)
    → self.key_hex ≢ []
    → self.is_sender ≡ false
    → lan_transfer_auth fuel rounds self listening conns nat timeout ≡ some out
    → out.result ≡ some s
    → (k : ℕ) × (w' : World) × Admitted self.hmac self.file_id self.key_hex
        ((rounds k).peer s)
        tt
        w'
unfolding lan_transfer_auth
lan_transfer_auth-Admitted fuel rounds self listening conns nat timeout s out key receiver h e =
    elim (loop_auth-Passed fuel rounds self listening timeout (start conns nat) out ran) [
      | inl nothing ↦ absurd (no_result (sym e ∙ nothing))
      | inr passed ↦ judged (subst (Passed self rounds) e passed)
    ]
  where
    no_result : some s ≢ none
    no_result p = cc

    has_key : (k : Bytes) → k ≢ [] → is_nil k ≡ false
    has_key [] p = absurd (p refl)
    has_key (c ∷ cs) p = refl

    ran : loop_auth fuel rounds self listening timeout (start conns nat) ≡ some out
    ran = rw (has_key self.key_hex key, lan_transfer_auth) at h

    judged :
        Passed self rounds (some s)
        → (k : ℕ) × (w' : World) × Admitted self.hmac self.file_id self.key_hex
            ((rounds k).peer s)
            tt
            w'
    judged (k, p) =
        let (w', a) = authenticates-Admitted self ((rounds k).peer s) receiver p in (k, w', a)
