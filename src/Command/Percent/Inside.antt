-- ===== src/Command/Percent/Inside.antt =====
-- The array `out` of `expand_env_percent` has 82 bytes, and that is enough.
use rmdos.Base.{
  ℕ, zero, suc, ◌+◌, ◌≤◌, ◌<◌, Bool, true, false, ◌&&◌, ◌||◌, ◌≡◌, inl, inr, arith, leb, ltb, ◌==◌,
  if◌then◌else◌, Buffer, buf_set, zeroed, Bool-cases,
}
use rmdos.Command.Env.{Sys, env_copy_var}
use rmdos.Command.Batch.{append_from}
use rmdos.Command.Batch.Within.{Within, append_from-Within, set_within}
use rmdos.Command.Percent.{PercentName, percent_name, put_typed, percent_from}

put_typed-Within :
    (p : PercentName) (o : ℕ) (out before : Buffer)
    → o < 80
    → ((j : ℕ) → 81 ≤ j → out j ≡ before j)
    → Within 81 before (put_typed p o out)
unfolding put_typed
put_typed-Within p o out before h b =
    let r = append_from 81 p.name 0 (o + 1) (buf_set out o b'%') in
    let w =
      append_from-Within 81 p.name 0 (o + 1) (buf_set out o b'%') before (omega arith)
        (set_within out before o b'%' (omega arith) b) in
    elim (Bool-cases (p.closed && ltb r.o 80)) [
      | inl e ↦ rw e (record {
        small = below (p.closed) r.o e;
        behind = set_within r.out before r.o b'%' (omega (arith, below p.closed r.o e)) w.behind;
      })
      | inr e ↦ rw e w
    ]
  where
    below : (b : Bool) (o : ℕ) → (b && ltb o 80) ≡ true → o + 1 ≤ 81
    below true o h = ground arith
    below false o h = cc

-- From `o` at most 81 the loop of `expand_env_percent` ends with at most 81 bytes in the array `out`,
-- whatever the command and the environment hold, and has written none from offset 81 on, so that the
-- NUL behind them is at most the last of the array's 82 bytes.
pub percent_from-Within :
    (fuel : ℕ) (s : Sys) (cmd : Buffer) (i o : ℕ) (out pathbuf before : Buffer)
    → o ≤ 81
    → ((j : ℕ) → 81 ≤ j → out j ≡ before j)
    → Within 81 before (percent_from fuel s cmd i o out pathbuf)
unfolding percent_from
percent_from-Within zero s cmd i o out pathbuf before h b = record { small = h; behind = b }
percent_from-Within (suc fuel) s cmd i o out pathbuf before h b =
    let c = cmd i in
    let d = cmd (i + 1) in
    let p = percent_name 31 cmd (i + 1) 0 zeroed in
    let v = env_copy_var fuel s p.name 128 pathbuf in
    elim (Bool-cases (c == 0 || leb 80 o)) [
      | inl e ↦ rw e (record { small = h; behind = b })
      | inr e ↦
          let room : o < 80 = still_room (c == 0) o e in
          elim (Bool-cases (c == b'%')) [
            | inr x ↦
                rw (e, x)
                  (percent_from-Within fuel s cmd (i + 1) (o + 1) (buf_set out o c) pathbuf before
                    (omega arith) (set_within out before o c (omega arith) b))
            | inl x ↦ elim (Bool-cases (d == b'%')) [
              | inl y ↦
                  rw (e, x, y)
                    (percent_from-Within fuel s cmd (i + 2) (o + 1) (buf_set out o b'%') pathbuf
                      before (omega arith) (set_within out before o b'%' (omega arith) b))
              | inr y ↦ elim (Bool-cases (leb b'0' d && leb d b'9')) [
                | inl z ↦
                    rw (e, x, y, z)
                      (percent_from-Within fuel s cmd (i + 2) (o + 2)
                        (buf_set (buf_set out o b'%') (o + 1) d) pathbuf before (omega arith)
                        (set_within (buf_set out o b'%') before (o + 1) d (omega arith)
                          (set_within out before o b'%' (omega arith) b)))
                | inr z ↦ elim (Bool-cases (p.closed && v.found)) [
                  | inl w ↦
                      let value = append_from 81 v.buf 0 o out in
                      let inside = append_from-Within 81 v.buf 0 o out before h b in
                      rw (e, x, y, z, w)
                        (percent_from-Within fuel s cmd p.next value.o value.out v.buf before
                          inside.small inside.behind)
                  | inr w ↦
                      let typed = put_typed p o out in
                      let inside = put_typed-Within p o out before room b in
                      rw (e, x, y, z, w)
                        (percent_from-Within fuel s cmd p.next typed.o typed.out
                          (if p.closed then v.buf else pathbuf) before inside.small inside.behind)
                ]
              ]
            ]
          ]
    ]
  where
    still_room : (b : Bool) (o : ℕ) → (b || leb 80 o) ≡ false → o < 80
    still_room true o h = cc
    still_room false o h = ground arith
