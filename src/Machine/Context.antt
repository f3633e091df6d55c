-- ===== src/Machine/Context.antt =====
-- What a context holds after it has been asked for.
use noctisplanet_foundation.Prelude.{
  ℕ, ◌≡◌, ◌≢◌, refl, ap, ◌∙◌, inl, inr, Bool, true, false, Bool-cases, Option, some, arith, ◌==◌,
}
use native.Mathlib.Decide.{ℕ_discrete}
use noctisplanet_foundation.Machine.{
  Architecture, arm, arm64, i386, x86_64, Register, r7, fp, ebp, rbp, sp, esp, rsp, pc, eip, rip,
  lr, Registers, Flavor, thread_state, exception_state, Kernel, MachineContext, set_state,
  get_states, machine_context_get, get_frame_pointer, get_stack_pointer, get_instruction_address,
  get_link_register,
}

-- A call that succeeds fills the buffer with the state of the thread.
abbrev pub Fills : Kernel → (ℕ → Flavor → Registers) → Type 0
Fills kernel state =
    (thread : ℕ) (flavor : Flavor) (buffer : Registers)
    → let (got, buffer') = kernel.thread_get_state thread flavor buffer in
      got ≡ true → buffer' ≡ state thread flavor

-- The addresses of a thread, by the registers that hold them on each architecture.
abbrev pub frame_register : Architecture → Register
frame_register arm = r7
frame_register arm64 = fp
frame_register i386 = ebp
frame_register x86_64 = rbp

abbrev pub stack_register : Architecture → Register
stack_register i386 = esp
stack_register x86_64 = rsp
stack_register _ = sp

abbrev pub instruction_register : Architecture → Register
instruction_register i386 = eip
instruction_register x86_64 = rip
instruction_register _ = pc

-- On x86 a return address is on the stack, and no register holds it.
abbrev pub link_of : Architecture → Registers → ℕ
link_of i386 registers = 0
link_of x86_64 registers = 0
link_of _ registers = registers lr

frame_lem :
    (arch : Architecture) (c : MachineContext)
    → get_frame_pointer arch c ≡ c.thread_registers (frame_register arch)
unfolding get_frame_pointer
frame_lem arm c = refl
frame_lem arm64 c = refl
frame_lem i386 c = refl
frame_lem x86_64 c = refl

stack_lem :
    (arch : Architecture) (c : MachineContext)
    → get_stack_pointer arch c ≡ c.thread_registers (stack_register arch)
unfolding get_stack_pointer
stack_lem arm c = refl
stack_lem arm64 c = refl
stack_lem i386 c = refl
stack_lem x86_64 c = refl

instruction_lem :
    (arch : Architecture) (c : MachineContext)
    → get_instruction_address arch c ≡ c.thread_registers (instruction_register arch)
unfolding get_instruction_address
instruction_lem arm c = refl
instruction_lem arm64 c = refl
instruction_lem i386 c = refl
instruction_lem x86_64 c = refl

link_lem :
    (arch : Architecture) (c : MachineContext)
    → get_link_register arch c ≡ link_of arch c.thread_registers
unfolding get_link_register
link_lem arm c = refl
link_lem arm64 c = refl
link_lem i386 c = refl
link_lem x86_64 c = refl

module _ (kernel : Kernel) (state : ℕ → Flavor → Registers) (arch : Architecture) where
  -- The functions that read a context give the thread's registers.
  pub record Shows (thread : ℕ) (context : MachineContext) : Type 0 where
    pub frame :
        get_frame_pointer arch context ≡ state thread (thread_state arch) (frame_register arch)
    pub stack :
        get_stack_pointer arch context ≡ state thread (thread_state arch) (stack_register arch)
    pub instruction :
        get_instruction_address arch context
        ≡ state thread (thread_state arch) (instruction_register arch)
    pub link : get_link_register arch context ≡ link_of arch (state thread (thread_state arch))
    pub exception : context.exception_registers ≡ state thread (exception_state arch)

  -- How asking for the context of a thread ends: with the thread's registers, or not, and why not.
  pub data ContextResult (apple : Bool) (thread : ℕ) (context : MachineContext)
      : Bool × Option MachineContext → Type 0 where
    got :
        {context' : MachineContext}
        → kernel.mach_thread thread ≢ 0
        → Shows (kernel.mach_thread thread) context'
        → ContextResult apple thread context (true, some context')
    no_thread :
        kernel.mach_thread thread ≡ 0 → ContextResult apple thread context (false, some context)
    no_kernel : apple ≡ false → ContextResult apple thread context (false, some context)
    no_thread_state :
        {context' : MachineContext}
        → (kernel.thread_get_state
            (kernel.mach_thread thread)
            (thread_state arch)
            context.thread_registers).0
          ≡ false
        → context'.exception_registers ≡ context.exception_registers
        → ContextResult apple thread context (false, some context')
    no_exception_state :
        {context' : MachineContext}
        → (kernel.thread_get_state
            (kernel.mach_thread thread)
            (exception_state arch)
            context.exception_registers).0
          ≡ false
        → ContextResult apple thread context (false, some context')

  shows :
      (thread : ℕ) (context : MachineContext)
      → context.thread_registers ≡ state thread (thread_state arch)
      → context.exception_registers ≡ state thread (exception_state arch)
      → Shows thread context
  shows thread context e e' = record {
    frame = frame_lem arch context ∙ ap (λ (rs : Registers). rs (frame_register arch)) e;
    stack = stack_lem arch context ∙ ap (λ (rs : Registers). rs (stack_register arch)) e;
    instruction =
        instruction_lem arch context ∙ ap (λ (rs : Registers). rs (instruction_register arch)) e;
    link = link_lem arch context ∙ ap (link_of arch) e;
    exception = e';
  }

  module _ (fills : Fills kernel state) (context : MachineContext) (thread : ℕ)
      (port : kernel.mach_thread thread ≢ 0) where
    states-ContextResult :
        (apple : Bool)
        → let (found, context') =
            get_states kernel apple arch (kernel.mach_thread thread) context in
          ContextResult apple thread context (found, some context')
    unfolding get_states set_state
    states-ContextResult false = no_kernel refl
    states-ContextResult true =
        let t = kernel.mach_thread thread in
        elim (Bool-cases
          (kernel.thread_get_state t (thread_state arch) context.thread_registers).0) [
            | inl e ↦
                elim (Bool-cases
                  (kernel.thread_get_state t (exception_state arch)
                    context.exception_registers).0) [
                      | inl e' ↦
                          rw (e, e')
                            (got port (
                              shows t _ (fills t (thread_state arch) context.thread_registers e)
                                (fills t (exception_state arch) context.exception_registers e')))
                      | inr e' ↦ rw (e, e') (no_exception_state e')
                    ]
            | inr e ↦ rw e (no_thread_state e refl)
          ]

  -- Let a call of the kernel that succeeds fill its buffer with the state of the thread. Then
  -- `machine_context_get` of a context succeeds only for a thread with a port, and the accessors then
  -- read the frame pointer, the stack pointer, the instruction address and, where there is one, the
  -- link register of that thread by the architecture, and the exception state is that thread's; it
  -- fails only if there is no port, the system has no such kernel, or one of the two calls fails, and
  -- the exception state is only written after the first call has succeeded.
  pub machine_context_get-ContextResult :
      (apple : Bool) (context : MachineContext) (thread : ℕ)
      → Fills kernel state
      → ContextResult apple thread context
          (machine_context_get kernel apple arch (some context) thread)
  unfolding machine_context_get
  machine_context_get-ContextResult apple context thread fills =
      elim (ℕ_discrete (kernel.mach_thread thread) 0) [
        | yes null ↦
            let is : (kernel.mach_thread thread == 0) ≡ true = ground (arith, null) in
            rw is (no_thread null)
        | no port ↦
            let not_null : (kernel.mach_thread thread == 0) ≡ false = ground arith in
            rw not_null (states-ContextResult fills context thread port apple)
      ]
