-- ===== src/Machine.antt =====
-- Sources/NPFoundation/machine/MachineContext.c: the registers of a thread. The Mach kernel is a parameter;
-- what the preprocessor decides, the architecture and whether the system is one of Apple's, is an argument.
pub mod Context
mod Examples
use noctisplanet_foundation.Prelude.{
  ℕ, zero, suc, Bool, true, false, Option, none, some, ◌==◌, if◌then◌else◌,
}

pub data Architecture : Type 0 where
  arm : Architecture
  arm64 : Architecture
  i386 : Architecture
  x86_64 : Architecture

-- The registers that the functions read.
pub data Register : Type 0 where
  r7 : Register
  fp : Register
  ebp : Register
  rbp : Register
  sp : Register
  esp : Register
  rsp : Register
  pc : Register
  eip : Register
  rip : Register
  lr : Register

abbrev pub Registers : Type 0
Registers = Register → ℕ

-- `ARM_THREAD_STATE`, `ARM_THREAD_STATE64`, `x86_THREAD_STATE32` or `x86_THREAD_STATE64` by the
-- architecture, and the four of the exception state; the counts go with them.
pub data Flavor : Type 0 where
  thread_state : Architecture → Flavor
  exception_state : Architecture → Flavor

-- `pthread_mach_thread_np`, with 0 for `MACH_PORT_NULL`; and whether `thread_get_state` returns
-- `KERN_SUCCESS`, and what it leaves in the buffer.
pub record Kernel : Type 0 where
  pub mach_thread : ℕ → ℕ
  pub thread_get_state : ℕ → Flavor → Registers → Bool × Registers

-- `struct NPMachineContext`: `__ss` and `__es` of its `data`.
pub record MachineContext : Type 0 where
  pub thread_registers : Registers
  pub exception_registers : Registers

module _ (kernel : Kernel) where
  unfoldable pub set_state : Bool → ℕ → Registers → Flavor → Bool × Registers
  set_state true thread state flavor = kernel.thread_get_state thread flavor state
  set_state false thread state flavor = (false, state)

  -- The two calls of `setState`, the second only if the first has succeeded.
  unfoldable pub get_states : Bool → Architecture → ℕ → MachineContext → Bool × MachineContext
  unfolding set_state
  get_states apple arch thread context =
      let (got, ss) = set_state apple thread context.thread_registers (thread_state arch) in
      let (got', es) = set_state apple thread context.exception_registers (exception_state arch) in
      if got
      then (got', record { thread_registers = ss; exception_registers = es })
      else (false, record context { thread_registers = ss })

  unfoldable pub machine_context_get :
      Bool → Architecture → Option MachineContext → ℕ → Bool × Option MachineContext
  unfolding get_states
  machine_context_get apple arch none thread = (false, none)
  machine_context_get apple arch (some context) thread =
      let (got, context') = get_states apple arch (kernel.mach_thread thread) context in
      if kernel.mach_thread thread == 0 then (false, some context) else (got, some context')

unfoldable pub get_frame_pointer : Architecture → MachineContext → ℕ
get_frame_pointer arm context = context.thread_registers r7
get_frame_pointer arm64 context = context.thread_registers fp
get_frame_pointer i386 context = context.thread_registers ebp
get_frame_pointer x86_64 context = context.thread_registers rbp

unfoldable pub get_stack_pointer : Architecture → MachineContext → ℕ
get_stack_pointer arm context = context.thread_registers sp
get_stack_pointer arm64 context = context.thread_registers sp
get_stack_pointer i386 context = context.thread_registers esp
get_stack_pointer x86_64 context = context.thread_registers rsp

unfoldable pub get_instruction_address : Architecture → MachineContext → ℕ
get_instruction_address arm context = context.thread_registers pc
get_instruction_address arm64 context = context.thread_registers pc
get_instruction_address i386 context = context.thread_registers eip
get_instruction_address x86_64 context = context.thread_registers rip

unfoldable pub get_link_register : Architecture → MachineContext → ℕ
get_link_register arm context = context.thread_registers lr
get_link_register arm64 context = context.thread_registers lr
get_link_register i386 context = 0
get_link_register x86_64 context = 0
