-- ===== src/Host/Calls/Tests.antt =====
-- A call back to the sender of the transaction.
use ityfuzz.Prelude.{refl, false, [], ◌∷◌, ◌==◌, arith}
use ityfuzz.Vm.State.{CallContext, Interpreter, returned, other}
use ityfuzz.Host.Calls.{CallInputs, CallHost, Outside, plain_call, call_allow_control_leak}
use ityfuzz.Host.Calls.Leaks.{Leaks, call_allow_control_leak-Leaks}

abbrev context : CallContext
context = record { address = 7; caller = 7; apparent_value = 0; code_address = 9 }

abbrev interp : Interpreter
interp = record {
  program_counter = 12;
  instruction_result = returned;
  memory = [];
  stack = 5 ∷ [];
  return_data_buffer = [];
  return_range = (0, 0);
  is_static = false;
  input = [];
  context = context;
}

abbrev inputs : CallInputs
inputs = record {
  contract = 1;
  scheme = plain_call;
  context = context;
  value = 3;
  input = 1 ∷ 2 ∷ 3 ∷ 4 ∷ [];
}

-- The sender of the transaction is 1, and a code that runs returns.
abbrev outside : Outside
outside = record {
  run = λ code bytes ctx host. (host, (other 0, bytes));
  has_caller = λ a. a == 1;
  continue_result = 0;
  revert_result = 1;
  hash_of = λ f. 5;
  call_until = 100;
  active_match_ext_call = false;
}

abbrev host : CallHost
host = record {
  call_count = 0;
  leak_ctx = [];
  middlewares_latent_call_actions = [];
  pc = 12;
  jumpi_trace = 0;
  pc_to_addresses = [];
  pc_to_call_hash = [];
  current_arbitrary_calls = [];
  hash_to_address = [];
  code = [];
  abi_max_size = λ i. 0;
  ret_size = 32;
}

call_allow_control_leak-Leaks_example :
    Leaks interp (0, 32) (call_allow_control_leak outside inputs interp (0, 32) host)
call_allow_control_leak-Leaks_example =
    call_allow_control_leak-Leaks interp (0, 32) outside inputs host refl (λ e. omega (arith, e))
