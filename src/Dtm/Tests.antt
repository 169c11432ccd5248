-- ===== src/Dtm/Tests.antt =====
-- The theorems on the debug transport module at concrete inputs.
use jtag_debug_module_for_ri.Common.{
  ◌≡◌, refl, Bool, true, false, not, ◌&&◌, List, [], ◌∷◌, ◌++◌, inl,
}
use jtag_debug_module_for_ri.Dtm.{
  once, bits, no_error, op_failed, idle, read, write, Dtm, Inputs, requesting, dmi_clear, step,
  request, error_code, dtm_read, resp_word,
}
use jtag_debug_module_for_ri.Dtm.Laws.{IsWide, step-IsWide, request_waits, error_sticks}
use jtag_debug_module_for_ri.Dtm.Transactions.{
  IsQuiet, steps, read_transaction, write_transaction, read_captured,
}
use jtag_debug_module_for_ri.Dtm.Requests.{request_started, steps_silent}

-- Nothing happens at the port, and the debug module answers nothing.
abbrev quiet : Inputs
quiet = record {
  tdi = false;
  capture = false;
  shift = false;
  update = false;
  dtmcs_select = false;
  dmi_select = true;
  jtag_dmi_clear = false;
  req_ready = false;
  resp_valid = false;
  resp_data = bits 32 0x1234_5678;
  resp = 0;
}

abbrev ready : Inputs
ready = record quiet { req_ready = true }

abbrev answers : Inputs
answers = record quiet { resp_valid = true }

abbrev fails : Inputs
fails = record answers { resp = 2 }

abbrev looks : Inputs
looks = record quiet { capture = true }

abbrev updates : Inputs
updates = record quiet { update = true }

-- Address 0x11, data 0 and a read.
abbrev read_dmstatus : List Bool
read_dmstatus = bits 2 1 ++ (bits 32 0 ++ bits 7 0x11)

abbrev fresh : Dtm
fresh = record {
  dtmcs = bits 32 0;
  dr = bits 41 0;
  state = idle;
  address = bits 7 0;
  data_reg = bits 32 0;
  error = no_error;
  dmi = once read_dmstatus;
}

abbrev reading : Dtm
reading = record fresh { state = read; address = bits 7 0x11 }

abbrev writing : Dtm
writing = record fresh { state = write; address = bits 7 0x10; data_reg = bits 32 1 }

abbrev failed : Dtm
failed = record fresh { error = op_failed }

fresh-IsWide : IsWide fresh
fresh-IsWide = record {
  dtmcs_width = refl;
  dr_width = refl;
  address_width = refl;
  data_width = refl;
  dmi_width = refl;
}

fresh-IsWide_after : IsWide (step updates fresh)
fresh-IsWide_after = step-IsWide updates fresh fresh-IsWide refl

quiet-step-calm : dmi_clear quiet (step quiet reading) ≡ false
quiet-step-calm = refl

request_waits_once : request quiet (step quiet reading) ≡ request quiet reading
request_waits_once = request_waits quiet quiet reading refl refl quiet-step-calm

error_sticks_once :
    ((step updates failed).error ≡ op_failed)
    × ((requesting (step updates failed).state && not (requesting idle)) ≡ false)
error_sticks_once = error_sticks updates failed refl refl refl

quiet-IsQuiet : IsQuiet quiet
quiet-IsQuiet = record { no_capture = refl; no_shift = refl; no_update = refl; no_clear = refl }

ready-IsQuiet : IsQuiet ready
ready-IsQuiet = record { no_capture = refl; no_shift = refl; no_update = refl; no_clear = refl }

answers-IsQuiet : IsQuiet answers
answers-IsQuiet = record { no_capture = refl; no_shift = refl; no_update = refl; no_clear = refl }

fails-IsQuiet : IsQuiet fails
fails-IsQuiet = record { no_capture = refl; no_shift = refl; no_update = refl; no_clear = refl }

read_transaction_once :
    steps (quiet ∷ (ready ∷ (quiet ∷ (quiet ∷ (fails ∷ []))))) reading
    ≡ record reading { state = idle; data_reg = resp_word 2 fails.resp_data; error = op_failed }
read_transaction_once =
    read_transaction (quiet ∷ []) (quiet ∷ quiet ∷ []) ready fails reading refl
      (quiet-IsQuiet, refl, tt) ready-IsQuiet refl (quiet-IsQuiet, refl, (quiet-IsQuiet, refl, tt))
      fails-IsQuiet refl

write_transaction_once :
    steps (quiet ∷ (ready ∷ (answers ∷ []))) writing ≡ record writing { state = idle }
write_transaction_once =
    write_transaction (quiet ∷ []) [] ready answers writing refl (quiet-IsQuiet, refl, tt)
      ready-IsQuiet refl tt answers-IsQuiet refl

read_captured_once :
    (step looks (steps (ready ∷ (quiet ∷ (answers ∷ []))) reading)).dr
    ≡ error_code no_error ++ (bits 32 0x1234_5678 ++ bits 7 0x11)
read_captured_once =
    read_captured [] (quiet ∷ []) ready answers looks reading refl refl tt ready-IsQuiet refl
      (quiet-IsQuiet, refl, tt) answers-IsQuiet refl refl refl refl refl refl refl

request_started_once :
    request quiet (step updates fresh)
    ≡ record { valid = true; addr = bits 7 0x11; req_data = bits 32 0; op = dtm_read }
request_started_once = request_started updates quiet fresh refl refl refl refl refl (inl refl) refl

-- Powered up with `dmi` taken from a cleared scan register.
abbrev cold : Dtm
cold = record fresh { dmi = once (bits 41 0) }

steps_silent_example : (request quiet (steps (updates ∷ (looks ∷ [])) cold)).valid ≡ false
steps_silent_example = steps_silent (updates ∷ (looks ∷ [])) quiet cold refl refl
