-- ===== src/Kernel/Irq/Handled.antt =====
-- src/kernel/irq.rs: a handler that was registered is called for its interrupt, which is then ended.
use zheos.Common.{
  ℕ, ◌%◌, ◌<◌, ◌≡◌, ◌≢◌, refl, ap, ◌∙◌, sym, true, false, some, Option, List, arith, ltb, ◌==◌, set,
  length, get_elem?-set_self, get_elem?-set_ne, ok, ◌>>=◌, bit_and, [], ◌∷◌, inl, inr, Bool-cases,
}
use zheos.Common.Bits.{bit_and-mask}
use zheos.Drivers.Gic
use zheos.Drivers.Gic.{Gic}
use zheos.Kernel.Sched.{Kernel, Switch, preempt}
use zheos.Kernel.Irq.{
  Irq, register, set_handler, get_handler, serve, finish_interrupt, handle_interrupt, println,
  too_late, ended, preempted,
}

register-live :
    (irq : Irq) (intid handler : ℕ)
    → irq.live ≡ true
    → register irq intid handler ≡ println irq (too_late intid)
unfolding register
register-live irq intid handler e = simp e refl

registered-handler :
    (irq : Irq) (intid handler : ℕ)
    → irq.live ≡ false
    → intid < length irq.handlers
    → register irq intid handler ≡ record irq {
      handlers = set irq.handlers intid (some handler);
      gic = Gic.enable irq.gic intid;
    }
unfolding register set_handler
registered-handler irq intid handler e h =
    let inside : ltb intid (length irq.handlers) ≡ true = ground arith in simp (e, inside)

get_handler-set_self :
    (handlers : List (Option ℕ)) (intid handler : ℕ)
    → intid < length handlers
    → get_handler (set handlers intid (some handler)) intid ≡ some handler
unfolding get_handler
get_handler-set_self handlers intid handler h =
    rw (get_handler, get_elem?-set_self handlers intid (some handler) h) refl

get_handler-set_ne :
    (handlers : List (Option ℕ)) (intid other handler : ℕ)
    → intid ≢ other
    → get_handler (set handlers intid (some handler)) other ≡ get_handler handlers other
unfolding get_handler
get_handler-set_ne handlers intid other handler ne =
    rw (get_handler, get_elem?-set_ne handlers (some handler) ne) refl

acknowledged :
    (iar : ℕ) → bit_and iar 0x3ff ≢ 1023 → Gic.acknowledge iar ≡ some (record { val = iar })
unfolding Gic.acknowledge
acknowledged iar ne = let real : (bit_and iar 0x3ff == 1023) ≡ false = ground arith in rw real refl

served_by :
    (call : ℕ → ℕ → Irq → Irq) (irq : Irq) (intid handler : ℕ)
    → get_handler irq.handlers intid ≡ some handler
    → serve call irq intid ≡ call handler intid irq
unfolding serve
served_by call irq intid handler e = rw (serve, e) refl

finished :
    (call : ℕ → ℕ → Irq → Irq) (irq served : Irq) (i : Gic.Interrupt) (kernel : Kernel)
    (switched : Switch)
    → serve call irq (Gic.intid i) ≡ served
    → preempt served.kernel ≡ ok (kernel, switched)
    → finish_interrupt call irq i
      ≡ ok (
        record served { gic = Gic.end_of served.gic i; kernel = kernel },
        ended i ∷ preempted switched ∷ [],
      )
unfolding finish_interrupt
finished call irq served i kernel switched e pass =
    ap
      (λ w. preempt w.kernel >>= λ r.
        ok (record w { gic = Gic.end_of w.gic i; kernel = r.0 }, ended i ∷ preempted r.1 ∷ []))
      e
    ∙ ap
        (λ o. o >>= λ r. ok (
          record served { gic = Gic.end_of served.gic i; kernel = r.0 },
          ended i ∷ preempted r.1 ∷ [],
        ))
        pass

opened :
    (call : ℕ → ℕ → Irq → Irq) (irq : Irq) (iar : ℕ) (i : Gic.Interrupt)
    → Gic.acknowledge iar ≡ some i
    → handle_interrupt call irq iar ≡ finish_interrupt call irq i
unfolding handle_interrupt
opened call irq iar i e = rw (handle_interrupt, e) refl

-- Registrations one after another, of a number and a handler each.
abbrev pub register_all : Irq → List (ℕ × ℕ) → Irq
register_all irq [] = irq
register_all irq ((intid, handler) ∷ rest) = register_all (register irq intid handler) rest

abbrev pub AllOther : ℕ → List (ℕ × ℕ) → Type 0
AllOther intid [] = Unit {0}
AllOther intid (r ∷ rest) = (r.0 ≢ intid) × AllOther intid rest

-- A registration of another number, or one that comes too late, leaves the handler.
register-kept :
    (irq : Irq) (intid handler other x : ℕ)
    → other ≢ intid
    → get_handler irq.handlers intid ≡ some handler
    → get_handler (register irq other x).handlers intid ≡ some handler
unfolding register set_handler
register-kept irq intid handler other x ne e = elim (Bool-cases irq.live) [
  | inl late ↦ rw (late, register) e
  | inr early ↦ elim (Bool-cases (ltb other (length irq.handlers))) [
    | inl inside ↦
        rw (early, inside, register) (get_handler-set_ne irq.handlers other intid x ne ∙ e)
    | inr outside ↦ rw (early, outside, register) e
  ]
]

register_all-kept :
    (irq : Irq) (intid handler : ℕ) (others : List (ℕ × ℕ))
    → AllOther intid others
    → get_handler irq.handlers intid ≡ some handler
    → get_handler (register_all irq others).handlers intid ≡ some handler
register_all-kept irq intid handler [] all e = e
register_all-kept irq intid handler (r ∷ rest) (ne, all) e =
    register_all-kept (register irq r.0 r.1) intid handler rest all
      (register-kept irq intid handler r.0 r.1 ne e)

-- A handler that is registered before interrupts go live is called, and no other, by any interrupt of
-- its number that comes when the table of handlers is as it was left by that registration and any
-- further ones of other numbers, whatever else the word of the acknowledge register holds. The
-- interrupt is ended with that word behind the handler, and then the scheduler runs.
pub register-handle_interrupt :
    (call : ℕ → ℕ → Irq → Irq) (irq now : Irq) (intid handler iar : ℕ) (others : List (ℕ × ℕ))
    (kernel : Kernel) (switched : Switch)
    → irq.live ≡ false
    → intid < length irq.handlers
    → AllOther intid others
    → now.handlers ≡ (register_all (register irq intid handler) others).handlers
    → iar % 1024 ≡ intid
    → intid ≢ 1023
    → preempt (call handler intid now).kernel ≡ ok (kernel, switched)
    → handle_interrupt call now iar ≡ (
        let served = call handler intid now in
        let i : Gic.Interrupt = record { val = iar } in
        ok (
          record served { gic = Gic.end_of served.gic i; kernel = kernel },
          ended i ∷ preempted switched ∷ [],
        ))
register-handle_interrupt call irq now intid handler iar others kernel switched quiet inside other
      table number real pass =
    let masked : bit_and iar 0x3ff ≡ intid = bit_and-mask 10 iar ∙ number in
    let made = registered-handler irq intid handler quiet inside in
    let at_first : get_handler (register irq intid handler).handlers intid ≡ some handler =
      ap (λ i. get_handler i.handlers intid) made
      ∙ get_handler-set_self irq.handlers intid handler inside in
    let kept : get_handler now.handlers intid ≡ some handler =
      ap (λ h. get_handler h intid) table
      ∙ register_all-kept (register irq intid handler) intid handler others other at_first in
    let i : Gic.Interrupt = record { val = iar } in
    let served : serve call now (Gic.intid i) ≡ call handler intid now =
      ap (serve call now) masked ∙ served_by call now intid handler kept in
    opened call now iar i (acknowledged iar (λ e. real (sym masked ∙ e)))
    ∙ finished call now (call handler intid now) i kernel switched served pass
