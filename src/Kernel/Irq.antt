-- ===== src/Kernel/Irq.antt =====
-- src/kernel/irq.rs: the table of interrupt handlers, and what an interrupt does. A handler is an
-- address; what it does is a parameter.
pub mod Handled
use zheos.Common.{ℕ, ◌+◌, Bool, true, false, Option, none, some, List, [], ◌∷◌, ◌++◌}
use zheos.Common.{ltb, if◌then◌else◌, get_elem?, set, replicate, length, Outcome, ok, ◌>>=◌}
use zheos.Drivers.Gic
use zheos.Drivers.Gic.{Gic}
use zheos.Kernel.Sched.{Kernel, Switch, preempt}

abbrev pub irq_count : ℕ
irq_count = 64

-- What is printed.
pub data Message : Type 0 where
  too_late : ℕ → Message
  past_the_table : ℕ → Message
  no_handler : ℕ → Message

-- `LIVE`, `HANDLERS`, and what they act on.
pub record Irq : Type 0 where
  pub live : Bool
  pub handlers : List (Option ℕ)
  pub gic : Gic
  pub kernel : Kernel
  pub console : List Message

abbrev pub new_table : List (Option ℕ)
new_table = replicate irq_count none

abbrev pub unmask : Irq → Irq
unmask irq = record irq { live = true }

-- `HandlerTable::set`: the table, if it has the slot.
unfoldable pub set_handler : List (Option ℕ) → ℕ → ℕ → Option (List (Option ℕ))
set_handler handlers intid handler =
    if ltb intid (length handlers) then some (set handlers intid (some handler)) else none

-- `HandlerTable::get`
unfoldable pub get_handler : List (Option ℕ) → ℕ → Option ℕ
get_handler handlers intid = elim (get_elem? handlers intid) [
  | none ↦ none
  | some handler ↦ handler
]

abbrev pub println : Irq → Message → Irq
println irq m = record irq { console = irq.console ++ (m ∷ []) }

unfoldable pub register : Irq → ℕ → ℕ → Irq
register irq intid handler =
    if irq.live
    then println irq (too_late intid)
    else (elim (set_handler irq.handlers intid handler) [
      | none ↦ println irq (past_the_table intid)
      | some handlers ↦ record irq { handlers = handlers; gic = Gic.enable irq.gic intid }
    ])

-- What an interrupt does behind its handler, in order.
pub data Effect : Type 0 where
  ended : Gic.Interrupt → Effect
  preempted : Switch → Effect

-- What the handler at an address does for an interrupt.
module _ (call : ℕ → ℕ → Irq → Irq) where
  unfoldable pub serve : Irq → ℕ → Irq
  serve irq intid = elim (get_handler irq.handlers intid) [
    | some handler ↦ call handler intid irq
    | none ↦ println irq (no_handler intid)
  ]

  -- Behind `gic::acknowledge`.
  unfoldable pub finish_interrupt : Irq → Gic.Interrupt → Outcome (Irq × List Effect)
  finish_interrupt irq interrupt =
      let served = serve irq (Gic.intid interrupt) in
      let after = record served { gic = Gic.end_of served.gic interrupt } in
      preempt after.kernel >>= λ r.
      ok (record after { kernel = r.0 }, ended interrupt ∷ preempted r.1 ∷ [])

  unfoldable pub handle_interrupt : Irq → ℕ → Outcome (Irq × List Effect)
  handle_interrupt irq iar = elim (Gic.acknowledge iar) [
    | none ↦ ok (irq, [])
    | some interrupt ↦ finish_interrupt irq interrupt
  ]
