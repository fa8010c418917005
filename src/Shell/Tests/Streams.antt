-- ===== src/Shell/Tests/Streams.antt =====
-- byte_channel.rs, output_stream.rs, input_stream.rs and interpreter.rs on a few bytes.
use tunshell.Prelude.{arith, true, false, ◌≡◌, refl, List, [], ◌∷◌, ◌++◌}
use tunshell.Shell.OutputStream.{cr, lf, new_output}
use tunshell.Shell.OutputStream.Crlf.{OutputOp, put, get, run_output, run_output-crlf}
use tunshell.Shell.Interpreter.{Interpreter, edit_all}
use tunshell.Shell.Interpreter.Shows.{IsEditing, Leaves}
use tunshell.Shell.Interpreter.Editing.{edit_all-IsEditing}
use tunshell.Shell.InputStream.{
  Token, bytes, left_arrow, up_arrow, down_arrow, enter, backspace, InputStream, esc, eot,
  new_input, poll_next, take_token, parse_buff, scan,
}
use tunshell.Shell.InputStream.Lossless.{
  InputOp, put as arrive, poll, shut, run_input, all_bytes, run_input-held,
}
use tunshell.Shell.InputStream.Progress.{IsPartial, poll_next-IsPartial}

abbrev prints : List OutputOp
prints = put (b'a' ∷ lf ∷ []) ∷ get 1 2 ∷ put (cr ∷ []) ∷ put (lf ∷ b'b' ∷ []) ∷ []

run_output-crlf_example :
    (run_output new_output [] prints).1 ++ (run_output new_output [] prints).0.inner.buff
    ≡ b'a' ∷ cr ∷ lf ∷ cr ∷ lf ∷ b'b' ∷ []
run_output-crlf_example = run_output-crlf prints

-- An arrow key, cut in the middle, behind a letter.
abbrev typed : List InputOp
typed =
    arrive (b'a' ∷ esc ∷ [])
    ∷ poll 1
    ∷ poll 1
    ∷ arrive (b'[' ∷ b'A' ∷ eot ∷ [])
    ∷ poll 1
    ∷ shut
    ∷ []

run_input-held_example :
    all_bytes (run_input new_input [] typed).1
      ++ (all_bytes (run_input new_input [] typed).0.tokens
          ++ (run_input new_input [] typed).0.buff)
    ≡ b'a' ∷ esc ∷ b'[' ∷ b'A' ∷ eot ∷ []
run_input-held_example = run_input-held typed

abbrev half_arrow : InputStream
half_arrow = record new_input { buff = esc ∷ b'[' ∷ [] }

poll_next-IsPartial_example :
    ((poll_next half_arrow 1).0.tokens ≡ []) × IsPartial (poll_next half_arrow 1).0.buff
unfolding poll_next take_token parse_buff scan
poll_next-IsPartial_example = poll_next-IsPartial half_arrow 1 refl

abbrev fresh : Interpreter
fresh = record {
  line_buff = [];
  history = (b'l' ∷ b's' ∷ []) ∷ [];
  cursor_pos = 0;
  history_pos = 1;
  output = [];
  output_closed = false;
}

-- A character is put in front of another one, the line before is recalled and shortened.
abbrev keys_pressed : List Token
keys_pressed =
    bytes (b'b' ∷ [])
    ∷ left_arrow
    ∷ bytes (b'a' ∷ [])
    ∷ enter
    ∷ up_arrow
    ∷ up_arrow
    ∷ left_arrow
    ∷ backspace
    ∷ down_arrow
    ∷ []

edit_all-IsEditing_example :
    Leaves IsEditing (edit_all (λ line. true) (b'/' ∷ []) fresh keys_pressed)
edit_all-IsEditing_example =
    edit_all-IsEditing (λ line. true) (b'/' ∷ []) fresh keys_pressed
      (record { cursor = omega arith; position = omega arith })
