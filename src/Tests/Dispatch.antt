-- ===== src/Tests/Dispatch.antt =====
-- Witnesses for the delivery of messages and the default handler's newline.
use libkprintf.Kprintf.Dispatch.{invoke_from, add_newline}
use libkprintf.Kprintf.{HandlerFlags, Msg}
use libkprintf.Prelude.{List, ℕ, true, ◌≡◌, false, ◌∷◌, [], some, ◌↔◌, none, arith, refl, pos, ◌+◌}
use libkprintf.Tests.Demo.{demo, table, first_msg}
use libkprintf.Kprintf.Dispatch.Newline.{
  EndsInNewline, add_newline-overflow, add_newline-EndsInNewline,
}
use libkprintf.Kprintf.Dispatch.Calls.{IsRun, invoke-IsRun_iff}
use libkprintf.Platform.{Platform}

abbrev quiet : HandlerFlags
quiet = record {
  auto_register = true;
  auto_newline = false;
  write_kprintf = true;
  write_printf = true;
}

-- A platform whose callback makes the text one byte, and answers KPRINTF_MSG_STOP.
abbrev rewriting : Platform ℕ
rewriting = record demo {
  callback = λ cb arg text len size is_user w. record {
    res = pos 1;
    text = b'x' ∷ [];
    len = 1;
    world = w + 1;
  };
}

abbrev rewritten : Msg
rewritten = record first_msg { text = b'x' ∷ []; len = 1 }

invoke-IsRun_iff_example :
    (invoke_from rewriting quiet 0x70 table first_msg 1 ≡ some (rewritten, 2))
    ↔ IsRun rewriting quiet 0x70 table first_msg 1 rewritten 2
invoke-IsRun_iff_example = invoke-IsRun_iff rewriting quiet 0x70 table first_msg rewritten 1 2

abbrev hi : List ℕ
hi = b'h' ∷ b'i' ∷ 0 ∷ 0 ∷ []

add_newline-EndsInNewline_example :
    (buf' : List ℕ) × (len' : ℕ) × (add_newline true hi 2 ≡ some (buf', len'))
    × EndsInNewline hi 2 buf' len'
add_newline-EndsInNewline_example = add_newline-EndsInNewline hi 2 (omega arith) (omega arith)

add_newline-overflow_example : add_newline true (b'h' ∷ b'i' ∷ 0 ∷ []) 2 ≡ none
add_newline-overflow_example =
    add_newline-overflow (b'h' ∷ b'i' ∷ 0 ∷ []) 1 b'i' refl (omega arith) (omega arith)
