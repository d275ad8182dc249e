-- ===== src/Security/Tests.antt =====
-- Runs of microkernel/src/security.rs at concrete inputs.
use zero_os.Common.{true, ◌≡◌, refl, false, List, [], ◌∷◌, none, some, arith}
use zero_os.Common.Bits.{bit}
use zero_os.Common.Result.{ok, err}
use zero_os.Common.Retain.{any, retain}
use zero_os.Security.{
  GrantBook, no_such_token, new, effective, find_grant, find_led, remove_grant, purge_led,
  purge_session_book, open_session, login_grant, begin_session,
}
use zero_os.Security.Invariant.{IsBook}
use zero_os.Security.Histories.{
  HasRoom, Call, issues, revokes, begins, process_gone, run, run-IsBook,
}
use zero_os.Security.Effective.{SomeRow, Gives, effective-bit, issuer_not_delegated}
use zero_os.Security.Tokens.{replay_refused}
use zero_os.Common.{true, ◌↔◌, ◌⊎◌}
use zero_os.Process.{ProcessRecord, runnable, running}
use zero_os.Security.Kernel
use zero_os.Security.Kernel.{Kernel}

-- Process 3 leads session 1 with a row bound to it, and holds a fresh login token.
abbrev book : GrantBook
book = record {
  grants =
      record { token = 2; pid = 4; caps = 1; expires_at = 100; session = 1; login_once = false }
      ∷ record { token = 3; pid = 3; caps = 64; expires_at = 100; session = 0; login_once = true }
      ∷ [];
  sessions = record { id = 1; leader = 3 } ∷ record { id = 2; leader = 9 } ∷ [];
  next_token = 4;
  next_session = 3;
}

book-IsBook : IsBook book
unfolding find_led
book-IsBook = record {
  tokens = (omega arith, (omega arith, tt));
  rows = (
    record { below = omega arith; scoped = omega arith; no_issuer = refl; login = refl },
    (record { below = omega arith; scoped = omega arith; no_issuer = refl; login = refl }, tt),
  );
  counter = omega arith;
  room = omega arith;
  sids = (omega arith, (omega arith, tt));
  below = (omega arith, (omega arith, tt));
  session_counter = omega arith;
  leaders = (refl, (refl, tt));
  session_room = omega arith;
}

abbrev logged_in : GrantBook
logged_in = record {
  grants = [];
  sessions = record { id = 2; leader = 9 } ∷ record { id = 3; leader = 3 } ∷ [];
  next_token = 4;
  next_session = 4;
}

login : begin_session book 3 3 10 ≡ ok ((3, some 1), logged_in)
unfolding begin_session login_grant find_grant any remove_grant find_led purge_led
    purge_session_book open_session retain
login = refl

abbrev history : List Call
history = issues 5 7 0 0 20 ∷ revokes 4 ∷ begins 5 4 21 ∷ process_gone 3 ∷ []

book-HasRoom : HasRoom book 5
book-HasRoom = record { token_left = omega arith; session_left = omega arith }

replay_refused_example : begin_session (run logged_in history) 3 3 30 ≡ err no_such_token
replay_refused_example =
    replay_refused book 3 3 10 ((3, some 1), logged_in) history 3 30 book-HasRoom book-IsBook login

issuer_not_delegated_example : bit 5 (effective (run new history) 5 0x27 0 22) ≡ bit 5 0x27
issuer_not_delegated_example = issuer_not_delegated history 5 0x27 0 22

run-IsBook_example : IsBook (run book history)
run-IsBook_example =
    run-IsBook book history (record { token_left = omega arith; session_left = omega arith })
      book-IsBook

effective-bit_example :
    (bit 0 (effective book 4 2 1 50) ≡ true)
    ↔ ((bit 0 2 ≡ true) ⊎ SomeRow (Gives 0 4 1 50) book.grants)
effective-bit_example = effective-bit 0 book 4 2 1 50

-- Process 3 leads session 1, and process 4 is its member.
abbrev leader : ProcessRecord
leader = record {
  pid = 3;
  state = running;
  slot = 0;
  capabilities = 1;
  session = 1;
  block_intent = false;
  wake_pending = false;
  owner = some 0;
}

abbrev kernel : Kernel
kernel = record {
  book = book;
  table = some leader ∷ some (record leader { pid = 4; state = runnable; owner = none }) ∷ [];
}

abbrev kernel_after : Kernel
kernel_after = record {
  book = logged_in;
  table =
      some (record leader { session = 3 })
      ∷ some (record leader { pid = 4; state = runnable; owner = none; session = 0 })
      ∷ [];
}
