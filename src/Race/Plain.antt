-- ===== src/Race/Plain.antt =====
-- `ft_lan_transfer` and `ft_connect_any` end in time and lose no socket.
use sync_clipboard.Prelude.{
  &&-eq-true, Bool, Bool-cases, List, Option, arith, inl, inr, ltb, ltb→lt, none, suc, zero, ℕ,
  ◌&&◌, ◌*◌, ◌+◌, ◌/◌, ◌<◌, ◌≤◌,
}
use sync_clipboard.Race.{
  Race, Round, connect_any, filled, is_nil, is_none, lan_transfer, loop_any, loop_plain,
  peers_plain, round_plain, start,
}
use sync_clipboard.Race.Count.{none_of, peers_plain-Balanced, round_plain-Balanced}
use sync_clipboard.Race.Ending.{Ended, Ended-Settled, Ended-after, Ended-close, Settled}

loop_plain-Ended :
    (fuel : ℕ) (rounds : ℕ → Round) (listening : Bool) (timeout elapsed : ℕ) (race : Race)
    → 0 < fuel
    → timeout + 50 ≤ elapsed + 50 * fuel
    → Ended race (loop_plain fuel rounds listening timeout elapsed race)
unfolding loop_plain
loop_plain-Ended zero rounds listening timeout elapsed race pos h = absurd (omega arith)
loop_plain-Ended (suc fuel) rounds listening timeout elapsed race pos h =
    elim (Bool-cases (ltb elapsed timeout && is_none race.result)) [
      | inr e ↦ rw (e, loop_plain) (Ended-close race)
      | inl e ↦
          let (more, free) = &&-eq-true (ltb elapsed timeout) (is_none race.result) e in
          let early : elapsed < timeout = ltb→lt elapsed timeout more in
          rw (e, loop_plain)
            (Ended-after (round_plain-Balanced listening (rounds 0) race (none_of race.result free))
              (loop_plain-Ended fuel (λ k. rounds (suc k)) listening timeout (elapsed + 50)
                (round_plain listening (rounds 0) race) (omega arith) (omega arith)))
    ]

-- `ft_lan_transfer` ends within `timeout / 50 + 2` turns, whatever the system answers, and then each
-- socket that it was given or has accepted is closed or is the one that it returns, exactly once; the
-- listening socket is not among them.
pub lan_transfer-Settled :
    (rounds : ℕ → Round) (listening : Bool) (conns : List (Option ℕ)) (nat : Option ℕ) (timeout : ℕ)
    → Settled conns nat (lan_transfer rounds listening conns nat timeout)
unfolding lan_transfer
lan_transfer-Settled rounds listening conns nat timeout = Ended-Settled conns nat (
    loop_plain-Ended (timeout / 50 + 2) rounds listening timeout 0 (start conns nat) (omega arith)
      (omega arith))

loop_any-Ended :
    (fuel : ℕ) (rounds : ℕ → Round) (timeout elapsed : ℕ) (race : Race)
    → 0 < fuel
    → timeout + 50 ≤ elapsed + 50 * fuel
    → Ended race (loop_any fuel rounds timeout elapsed race)
unfolding loop_any
loop_any-Ended zero rounds timeout elapsed race pos h = absurd (omega arith)
loop_any-Ended (suc fuel) rounds timeout elapsed race pos h =
    elim (Bool-cases (ltb elapsed timeout && is_none race.result)) [
      | inr e ↦ rw (e, loop_any) (Ended-close race)
      | inl e ↦ elim (Bool-cases (is_nil (filled race.conns))) [
        | inl n ↦ rw (e, n, loop_any) (Ended-close race)
        | inr n ↦
            let (more, free) = &&-eq-true (ltb elapsed timeout) (is_none race.result) e in
            let early : elapsed < timeout = ltb→lt elapsed timeout more in
            rw (e, n, loop_any)
              (Ended-after (peers_plain-Balanced (rounds 0) race) (
                loop_any-Ended fuel (λ k. rounds (suc k)) timeout (elapsed + 50)
                  (peers_plain (rounds 0) race) (omega arith) (omega arith)))
      ]
    ]

-- `ft_connect_any` ends within `timeout / 50 + 2` turns too, and each socket that it has opened is
-- closed or is the one that it returns, exactly once.
pub connect_any-Settled :
    (rounds : ℕ → Round) (conns : List (Option ℕ)) (timeout : ℕ)
    → Settled conns none (connect_any rounds conns timeout)
unfolding connect_any
connect_any-Settled rounds conns timeout = Ended-Settled conns none (
    loop_any-Ended (timeout / 50 + 2) rounds timeout 0 (start conns none) (omega arith)
      (omega arith))
