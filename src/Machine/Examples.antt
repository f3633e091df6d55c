-- ===== src/Machine/Examples.antt =====
-- A kernel whose thread 3 has the registers of a fixed state.
use noctisplanet_foundation.Prelude.{ℕ, ◌≡◌, refl, true, false, none, some}
use noctisplanet_foundation.Machine.{
  arm64, Registers, Flavor, Kernel, MachineContext, machine_context_get, get_link_register, i386,
}
use noctisplanet_foundation.Machine.Context.{ContextResult, machine_context_get-ContextResult}

abbrev state : ℕ → Flavor → Registers
state thread flavor register = thread

abbrev kernel : Kernel
kernel = record {
  mach_thread = λ thread. thread;
  thread_get_state = λ thread flavor buffer. (true, state thread flavor);
}

abbrev blank : MachineContext
blank = record { thread_registers = λ r. 0; exception_registers = λ r. 0 }

null_context : machine_context_get kernel true arm64 none 3 ≡ (false, none)
unfolding machine_context_get
null_context = refl

no_link_register : get_link_register i386 blank ≡ 0
unfolding get_link_register
no_link_register = refl

machine_context_get-ContextResult_example :
    ContextResult kernel state arm64 true 3 blank
      (machine_context_get kernel true arm64 (some blank) 3)
machine_context_get-ContextResult_example =
    machine_context_get-ContextResult kernel state arm64 true blank 3
      (λ thread flavor buffer e. refl)
