-- ===== src/Pci/Reach.antt =====
-- Where the walk over the buses goes.
use systemcommander.Common.{
  ℕ, zero, suc, ◌+◌, ◌-◌, ◌*◌, ◌%◌, ◌^◌, ◌<◌, ◌≤◌, ◌≡◌, refl, Bool, true, false, arith, List, [],
  ◌∷◌, ◌++◌, ltb, add64, sub64, ◌/◌, u64_mod, if◌then◌else◌,
}
use systemcommander.Phys.{int_rounds}
use systemcommander.PageMap.{page_align}
use systemcommander.Pci.{
  PciDeviceHeader, AcpiDeviceConfig, PciStep, mapped, reported, ahci_started, absent, is_ahci,
  for_each, function_enumerate, device_enumerate, bus_enumerate, entry_enumerate, pci_enumerate,
}

-- Every step of a list is one that `P` allows.
pub data AllSteps (P : PciStep → Type 0) : List PciStep → Type 0 where
  none_left : AllSteps P []
  and_step :
      {step : PciStep}
      → {steps : List PciStep} → P step
      → AllSteps P steps
      → AllSteps P (step ∷ steps)

AllSteps-append :
    {P : PciStep → Type 0} (xs : List PciStep) {ys : List PciStep}
    → AllSteps P xs
    → AllSteps P ys
    → AllSteps P (xs ++ ys)
AllSteps-append [] none_left b = b
AllSteps-append (x ∷ xs) (and_step p a) b = and_step p (AllSteps-append xs a b)

AllSteps-mono :
    {P Q : PciStep → Type 0} {steps : List PciStep}
    → ((step : PciStep) → P step → Q step)
    → AllSteps P steps
    → AllSteps Q steps
AllSteps-mono weaker none_left = none_left
AllSteps-mono weaker (and_step {step} p a) = and_step (weaker step p) (AllSteps-mono weaker a)

AllSteps-for_each :
    {P : PciStep → Type 0} (body : ℕ → List PciStep) (rounds i j : ℕ)
    → i + rounds ≡ j
    → ((k : ℕ) → i ≤ k → k < j → AllSteps P (body k))
    → AllSteps P (for_each rounds i body)
unfolding for_each
AllSteps-for_each body zero i j e each = none_left
AllSteps-for_each body (suc rounds) i j e each =
    AllSteps-append (body i) (each i (omega arith) (omega arith))
      (AllSteps-for_each body rounds (i + 1) j (omega arith) (λ k a b. each k (omega arith) b))

AllSteps-unless :
    {P : PciStep → Type 0} (b : Bool) {steps : List PciStep}
    → (b ≡ false → AllSteps P steps)
    → AllSteps P (if b then [] else steps)
AllSteps-unless true all = none_left
AllSteps-unless false all = all refl

AllSteps-if :
    {P : PciStep → Type 0} (b : Bool) {steps : List PciStep}
    → (b ≡ true → AllSteps P steps)
    → AllSteps P (if b then steps else [])
AllSteps-if true all = all refl
AllSteps-if false all = none_left

-- The address of a function's configuration space.
abbrev pub config_address : (base bus device function : ℕ) → ℕ
config_address base bus device function = base + bus * 2 ^ 20 + device * 2 ^ 15 + function * 2 ^ 12

-- The address `a` is that of a function, on a bus of the entry below bus 64, that answers, and so do
-- function 0 of its device and function 0 of device 0 of its bus.
pub record IsFunction (header_at : ℕ → PciDeviceHeader) (c : AcpiDeviceConfig) (a : ℕ)
    : Type 0 where
  pub bus : ℕ
  pub device : ℕ
  pub function : ℕ
  pub bus_from : c.start_bus ≤ bus
  pub bus_below : bus < c.end_bus
  pub bus_bounded : bus < 64
  pub device_below : device < 32
  pub function_below : function < 8
  pub at : a ≡ config_address c.base bus device function
  pub bus_answers : absent (header_at (config_address c.base bus 0 0)) ≡ false
  pub device_answers : absent (header_at (config_address c.base bus device 0)) ≡ false
  pub answers : absent (header_at a) ≡ false

-- What a step may be: only a function of `IsFunction` is reported, and the driver is started only on
-- one of those whose class, subclass and interface are those of an AHCI controller.
pub InReach : (ℕ → PciDeviceHeader) → AcpiDeviceConfig → PciStep → Type 0
InReach header_at c (mapped page) = page % 0x1000 ≡ 0
InReach header_at c (reported a) = IsFunction header_at c a
InReach header_at c (ahci_started a) = IsFunction header_at c a × (is_ahci (header_at a) ≡ true)

page_align-aligned : (a : ℕ) → page_align a % 0x1000 ≡ 0
page_align-aligned a = omega arith

module _ (header_at : ℕ → PciDeviceHeader) (c : AcpiDeviceConfig)
    (fits : c.base + 2 ^ 26 ≤ u64_mod) where
  function_enumerate-InReach :
      (bus device function : ℕ)
      → c.start_bus ≤ bus
      → bus < c.end_bus
      → bus < 64
      → device < 32
      → function < 8
      → absent (header_at (config_address c.base bus 0 0)) ≡ false
      → absent (header_at (config_address c.base bus device 0)) ≡ false
      → AllSteps
          (InReach header_at c)
          (function_enumerate header_at (config_address c.base bus device 0) function)
  unfolding function_enumerate InReach
  function_enumerate-InReach bus device function b1 b2 b3 d f ab ad =
      let a = config_address c.base bus device function in
      let e : add64 (config_address c.base bus device 0) (function * 2 ^ 12) ≡ a = omega arith in
      let here : absent (header_at a) ≡ false → IsFunction header_at c a = λ answers. record {
        bus = bus;
        device = device;
        function = function;
        bus_from = b1;
        bus_below = b2;
        bus_bounded = b3;
        device_below = d;
        function_below = f;
        at = refl;
        bus_answers = ab;
        device_answers = ad;
        answers = answers;
      } in
      rw e (
        and_step (page_align-aligned a) (
          AllSteps-unless (absent (header_at a)) (λ answers.
            and_step (here answers)
              (AllSteps-if (is_ahci (header_at a)) (λ is. and_step (here answers, is) none_left)))))

  device_enumerate-InReach :
      (bus device : ℕ)
      → c.start_bus ≤ bus
      → bus < c.end_bus
      → bus < 64
      → device < 32
      → absent (header_at (config_address c.base bus 0 0)) ≡ false
      → AllSteps
          (InReach header_at c)
          (device_enumerate header_at (config_address c.base bus 0 0) device)
  unfolding device_enumerate InReach
  device_enumerate-InReach bus device b1 b2 b3 d ab =
      let a = config_address c.base bus device 0 in
      let e : add64 (config_address c.base bus 0 0) (device * 2 ^ 15) ≡ a = omega arith in
      rw e (
        and_step (page_align-aligned a) (
          AllSteps-unless (absent (header_at a)) (λ ad.
            AllSteps-for_each (function_enumerate header_at a) 8 0 8 refl
              (λ function _ f. function_enumerate-InReach bus device function b1 b2 b3 d f ab ad))))

  bus_enumerate-InReach :
      (bus : ℕ)
      → c.start_bus ≤ bus
      → bus < c.end_bus
      → bus < 64
      → AllSteps (InReach header_at c) (bus_enumerate header_at c.base bus)
  unfolding bus_enumerate InReach
  bus_enumerate-InReach bus b1 b2 b3 =
      let a = config_address c.base bus 0 0 in
      let e : add64 c.base (bus * 2 ^ 20) ≡ a = omega arith in
      rw e (
        and_step (page_align-aligned a) (
          AllSteps-unless (absent (header_at a)) (λ ab.
            AllSteps-for_each (device_enumerate header_at a) 32 0 32 refl
              (λ device _ d. device_enumerate-InReach bus device b1 b2 b3 d ab))))

  entry_enumerate-InReach : AllSteps (InReach header_at c) (entry_enumerate header_at c)
  unfolding entry_enumerate
  entry_enumerate-InReach =
      let last = (if ltb c.end_bus 64 then c.end_bus else 64) in
      AllSteps-for_each (bus_enumerate header_at c.base) (last - c.start_bus) c.start_bus
        (c.start_bus + (last - c.start_bus)) refl
        (λ bus from below.
          bus_enumerate-InReach bus from (below_end bus from below).0 (below_end bus from below).1)
    where
      below_end :
          (bus : ℕ)
          → c.start_bus ≤ bus
          → bus < c.start_bus + ((if ltb c.end_bus 64 then c.end_bus else 64) - c.start_bus)
          → (bus < c.end_bus) × (bus < 64)
      below_end bus from below = (ground arith, ground arith)

-- A step that some entry inside the table allows.
pub InTable : (ℕ → PciDeviceHeader) → ℕ → (ℕ → AcpiDeviceConfig) → PciStep → Type 0
InTable header_at size entry step =
    (i : ℕ) × (44 + 16 * (i + 1) ≤ size) × InReach header_at (entry i) step

entries_inside :
    (size i : ℕ)
    → size < 2 ^ 32
    → i < int_rounds (sub64 size 44 / 16 % 2 ^ 32)
    → 44 + 16 * (i + 1) ≤ size
entries_inside size i range below = ground arith

-- The walk over an MCFG table, whose entries' 64 MiB of configuration space each fit below 2 ^ 64:
-- each of its steps belongs to an entry that lies inside the table. Every page it maps is aligned;
-- every function it reports lies at the address of its bus, device and function number, on a bus of
-- that entry from `start_bus` on, below `end_bus` and 64, and answers, as do function 0 of its device
-- and device 0 of its bus; and the AHCI driver is started on such functions only, of class 1, subclass
-- 6 and interface 1.
pub pci_enumerate-InTable :
    (header_at : ℕ → PciDeviceHeader) (size : ℕ) (entry : ℕ → AcpiDeviceConfig)
    → size < 2 ^ 32
    → ((i : ℕ) → (entry i).base + 2 ^ 26 ≤ u64_mod)
    → AllSteps (InTable header_at size entry) (pci_enumerate header_at size entry)
unfolding pci_enumerate InTable
pci_enumerate-InTable header_at size entry range fits =
    AllSteps-for_each (λ i. entry_enumerate header_at (entry i))
      (int_rounds (sub64 size 44 / 16 % 2 ^ 32)) 0 (int_rounds (sub64 size 44 / 16 % 2 ^ 32))
      (omega arith)
      (λ i _ below.
        AllSteps-mono (λ step q. (i, entries_inside size i range below, q))
          (entry_enumerate-InReach header_at (entry i) (fits i)))
