-- ===== src/Command/Parse/Names.antt =====
-- The file names of a redirection stay in their arrays.
use rmdos.Base.{
  ℕ, zero, suc, ◌+◌, ◌≤◌, ◌<◌, ◌||◌, ◌≡◌, inl, inr, refl, ◌∙◌, arith, ltb, ◌==◌, if◌then◌else◌,
  Buffer, buf_set, Bool-cases,
}
use rmdos.Command.Redirect.{redir_none, redir_in, redir_out, redir_append}
use rmdos.Command.Text.{blank}
use rmdos.Command.Parse.{Redirection, skip_blank, Named, name_from, parse_from, parse_redirection}

-- Nothing from 64 on is written.
record Inside (before : Buffer) (r : Named) : Type 0 where
  count : r.count ≤ 63
  behind : (j : ℕ) → 64 ≤ j → r.name j ≡ before j

name_from-Inside :
    (fuel : ℕ) (cmd : Buffer) (i n : ℕ) (before name : Buffer)
    → n ≤ 63
    → ((j : ℕ) → 64 ≤ j → name j ≡ before j)
    → Inside before (name_from fuel cmd i n name)
unfolding name_from
name_from-Inside zero cmd i n before name h b = record { count = h; behind = b }
name_from-Inside (suc fuel) cmd i n before name h b =
    let c = cmd i in
    elim (Bool-cases (c == 0 || blank c || c == b'<' || c == b'>')) [
      | inl e ↦ rw e (record { count = h; behind = b })
      | inr e ↦ elim (Bool-cases (ltb n 63)) [
        | inl x ↦
            rw (e, x)
              (name_from-Inside fuel cmd (i + 1) (n + 1) before (buf_set name n c) (ground arith)
                (λ j k. set_in name n c j (ground arith) ∙ b j k))
        | inr x ↦ rw (e, x) (name_from-Inside fuel cmd (i + 1) n before name h b)
      ]
    ]
  where
    set_in : (b : Buffer) (n c j : ℕ) → n < j → buf_set b n c j ≡ b j
    set_in b n c j h = ground arith

-- Both names stay inside.
pub record Within (before after : Redirection) : Type 0 where
  pub input : (j : ℕ) → 64 ≤ j → after.redir_in_name j ≡ before.redir_in_name j
  pub output : (j : ℕ) → 64 ≤ j → after.redir_out_name j ≡ before.redir_out_name j

ended :
    (b before : Buffer) (n : ℕ)
    → n ≤ 63
    → ((j : ℕ) → 64 ≤ j → b j ≡ before j)
    → (j : ℕ) → 64 ≤ j
    → buf_set b n 0 j ≡ before j
ended b before n h k j x = set_in b n j (omega arith) ∙ k j x
  where
    set_in : (b : Buffer) (n j : ℕ) → n < j → buf_set b n 0 j ≡ b j
    set_in b n j h = ground arith

parse_from-Within :
    (fuel i o : ℕ) (before st : Redirection)
    → Within before st
    → Within before (parse_from fuel i o st)
unfolding parse_from
parse_from-Within zero i o before st h = h
parse_from-Within (suc fuel) i o before st h =
    let c = st.cmd i in
    let double = st.cmd (i + 1) == b'>' in
    let start = skip_blank fuel st.cmd (i + 1) in
    let start_out = skip_blank fuel st.cmd (if double then i + 2 else i + 1) in
    let input = name_from fuel st.cmd start 0 st.redir_in_name in
    let output = name_from fuel st.cmd start_out 0 st.redir_out_name in
    let in_lem =
      name_from-Inside fuel st.cmd start 0 before.redir_in_name st.redir_in_name (omega arith)
        h.input in
    let out_lem =
      name_from-Inside fuel st.cmd start_out 0 before.redir_out_name st.redir_out_name (omega arith)
        h.output in
    elim (Bool-cases (c == 0)) [
      | inl e ↦ rw e (record { input = h.input; output = h.output })
      | inr e ↦ elim (Bool-cases (c == b'<')) [
        | inl x ↦
            rw (e, x)
              (parse_from-Within fuel input.next o before
                (record st {
                  redir_in_name = buf_set input.name input.count 0;
                  redir_in_kind = redir_in;
                })
                (record {
                  input =
                      ended input.name before.redir_in_name input.count in_lem.count in_lem.behind;
                  output = h.output;
                }))
        | inr x ↦ elim (Bool-cases (c == b'>')) [
          | inl y ↦
              rw (e, x, y)
                (parse_from-Within fuel output.next o before
                  (record st {
                    redir_out_name = buf_set output.name output.count 0;
                    redir_out_kind = if double then redir_append else redir_out;
                  })
                  (record {
                    input = h.input;
                    output =
                        ended output.name before.redir_out_name output.count out_lem.count
                          out_lem.behind;
                  }))
          | inr y ↦
              rw (e, x, y)
                (parse_from-Within fuel (i + 1) (o + 1) before
                  (record st { cmd = buf_set st.cmd o c })
                  (record { input = h.input; output = h.output }))
        ]
      ]
    ]

-- However long the file names of a command are, `parse_redirection` writes nothing behind the 64
-- bytes of `redir_in_name` and of `redir_out_name`.
pub parse_redirection-Within : (fuel : ℕ) (st : Redirection) → Within st (parse_redirection fuel st)
unfolding parse_redirection
parse_redirection-Within fuel st =
    let start = record st {
      redir_in_kind = redir_none;
      redir_out_kind = redir_none;
      redir_in_name = buf_set st.redir_in_name 0 0;
      redir_out_name = buf_set st.redir_out_name 0 0;
    } in
    parse_from-Within fuel 0 0 st start (record {
      input = ended st.redir_in_name st.redir_in_name 0 (omega arith) (λ j x. refl);
      output = ended st.redir_out_name st.redir_out_name 0 (omega arith) (λ j x. refl);
    })
