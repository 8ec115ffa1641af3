-- ===== src/Terminal/Examples.antt =====
-- Tests: a terminal with a ring of three items and a held keyboard.
use agent_multiplex.Base.{◌+◌, ◌≡◌, refl, true, none, some, List, [], ◌∷◌, ◌++◌, length, All, arith}
use agent_multiplex.Terminal.{
  Dimensions, Lease, Terminal, StreamItem, output, running, exited, accept_output,
}
use agent_multiplex.Terminal.Attach.{prefixed, attach_at, coalesce}
use agent_multiplex.Terminal.Replay.{
  Numbered, Ring, outputs, changes, ticks, retires, happen_all, happen_all-Ring,
}
use agent_multiplex.Terminal.Resume.{attach_at_resumes}
use agent_multiplex.Terminal.Output.{output_bytes, Fits, coalesce_bytes, accept_output_bytes}

abbrev screen : Dimensions
screen = record { columns = 100; rows = 30 }

abbrev pub lease : Lease
lease = record {
  summary = record { terminal_lease_id = 50; terminal_client_id = 51; expires_at = 900 };
  token_hash = 61;
  next_input_sequence = 0;
  receipts = [];
}

abbrev pub terminal : Terminal
terminal = record {
  state = running;
  dimensions = screen;
  initial_dimensions = screen;
  opening_output_complete = true;
  sequence = 5;
  last_output_sequence = 5;
  replay = (output 3 (65 ∷ []), 1) ∷ (output 4 (66 ∷ []), 1) ∷ (output 5 (67 ∷ []), 1) ∷ [];
  replay_bytes = 3;
  lease = some lease;
  exit = none;
  limits = record { replay_items = 3; replay_bytes = 1000; lease_ttl_ms = 15000 };
  capabilities = record { can_write = true; can_resize = true };
  published = [];
  received = [];
}

terminal-Ring : Ring terminal
terminal-Ring = record {
  start = 2;
  numbered = (refl, (refl, (refl, tt)));
  ends = omega arith;
  counted = omega arith;
  few = omega arith;
  small = omega arith;
}

happen_all-Ring_example :
    Ring
      (happen_all terminal (outputs (72 ∷ 73 ∷ []) ∷ ticks 950 ∷ changes ∷ retires 0 exited ∷ []))
happen_all-Ring_example =
    happen_all-Ring terminal (outputs (72 ∷ 73 ∷ []) ∷ ticks 950 ∷ changes ∷ retires 0 exited ∷ [])
      terminal-Ring

attach_at_resumes_example :
    (items : List StreamItem) × (attach_at terminal (some 3) ≡ prefixed items)
    × Numbered 3 items
    × (3 + length items ≡ 5)
unfolding terminal-Ring
attach_at_resumes_example = attach_at_resumes terminal 3 terminal-Ring (omega arith) (omega arith)

accept_output_bytes_example :
    (frames : List StreamItem) × ((accept_output terminal (72 ∷ 73 ∷ [])).published ≡ [] ++ frames)
    × (output_bytes frames ≡ 72 ∷ 73 ∷ [])
    × All Fits frames
accept_output_bytes_example = accept_output_bytes terminal (72 ∷ 73 ∷ []) refl

coalesce_bytes_example :
    output_bytes (coalesce screen none (output 1 (65 ∷ []) ∷ output 2 (66 ∷ []) ∷ []))
    ≡ [] ++ output_bytes (output 1 (65 ∷ []) ∷ output 2 (66 ∷ []) ∷ [])
coalesce_bytes_example = coalesce_bytes screen none (output 1 (65 ∷ []) ∷ output 2 (66 ∷ []) ∷ [])
