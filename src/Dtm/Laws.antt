-- ===== src/Dtm/Laws.antt =====
-- Single edges of rtl/DTM_top.sv: the widths of its registers, its errors and its requests.
use jtag_debug_module_for_ri.Common.{
  ℕ, zero, suc, ◌-◌, Bool-cases, ◌≡◌, refl, sym, ◌∙◌, inl, inr, Bool, true, false, not, ◌&&◌, List,
  [], ◌∷◌, ◌++◌, arith, if◌then◌else◌, length, length-append, take, drop,
}
use Prim.Native.Nat.{min}
use jtag_debug_module_for_ri.Tap.{shift_in}
use jtag_debug_module_for_ri.Dtm.{
  DmiError, no_error, op_failed, dmi_busy, State, idle, read, wait_read_valid, write,
  wait_write_valid, Dtm, Inputs, requesting, dmi_clear, dmireset, dtmcs_captured, dtmcs_d, dmi_of,
  resp_word, error_code, Variable, once, follows, dmi_value, fsm, busy_now, dr_d, step, request,
  req_op, is_no_error,
}

-- The bits that the variable got once are 41.
abbrev pub HasWidth : Variable → Type 0
HasWidth (once l) = length l ≡ 41
HasWidth follows = Unit {0}

-- The registers have the widths that their declarations give them.
pub record IsWide (d : Dtm) : Type 0 where
  pub dtmcs_width : length d.dtmcs ≡ 32
  pub dr_width : length d.dr ≡ 41
  pub address_width : length d.address ≡ 7
  pub data_width : length d.data_reg ≡ 32
  pub dmi_width : HasWidth d.dmi

dmi_value-width :
    (m : Variable) (dr : List Bool) → HasWidth m → length dr ≡ 41 → length (dmi_value m dr) ≡ 41
dmi_value-width (once l) dr h hd = h
dmi_value-width follows dr h hd = hd

pub length-dmi_value : (d : Dtm) → IsWide d → length (dmi_value d.dmi d.dr) ≡ 41
length-dmi_value d h = dmi_value-width d.dmi d.dr h.dmi_width h.dr_width

length-shift_in : (td : Bool) (l : List Bool) → length (shift_in td l) ≡ length l
length-shift_in td [] = refl
length-shift_in td (b ∷ l) = length-append l (td ∷ []) ∙ omega arith

pub length-drop : (n : ℕ) (l : List Bool) → length (drop n l) ≡ length l - n
length-drop zero l = omega arith
length-drop (suc n) [] = omega arith
length-drop (suc n) (b ∷ l) = omega (arith, length-drop n l)

pub length-take : (n : ℕ) (l : List Bool) → length (take n l) ≡ min n (length l)
length-take zero l = omega arith
length-take (suc n) [] = omega arith
length-take (suc n) (b ∷ l) = omega (arith, length-take n l)

length-error_code : (e : DmiError) → length (error_code e) ≡ 2
length-error_code no_error = refl
length-error_code _ = refl

pub length-dtmcs_captured : (e : DmiError) → length (dtmcs_captured e) ≡ 32
length-dtmcs_captured no_error = refl
length-dtmcs_captured _ = refl

length-dtmcs_d : (i : Inputs) (d : Dtm) → length d.dtmcs ≡ 32 → length (dtmcs_d i d) ≡ 32
unfolding dtmcs_d
length-dtmcs_d i d h = ground (arith, length-shift_in i.tdi d.dtmcs, length-dtmcs_captured d.error)

pub length-dmi_of :
    (a w : List Bool) (e : DmiError) → length a ≡ 7 → length w ≡ 32 → length (dmi_of a w e) ≡ 41
length-dmi_of a w e ha hw =
    length-append (error_code e) (w ++ a) ∙ omega (arith, length-append w a, length-error_code e)

pub length-resp_word : (r : ℕ) (w : List Bool) → length w ≡ 32 → length (resp_word r w) ≡ 32
length-resp_word r w h = ground arith

fsm_widths :
    (s : State) (i : Inputs) (d : Dtm)
    → IsWide d
    → length i.resp_data ≡ 32
    → (length (fsm s i d).address_d ≡ 7) × (length (fsm s i d).data_d ≡ 32)
unfolding fsm
fsm_widths idle i d h hr =
    let seen : List Bool = dmi_value d.dmi d.dr in
    ground (
      arith,
      length-dmi_value d h,
      length-drop 34 seen,
      length-take 32 (drop 2 seen),
      length-drop 2 seen,
    )
fsm_widths read i d h hr = (h.address_width, h.data_width)
fsm_widths wait_read_valid i d h hr =
    (h.address_width, ground (arith, length-resp_word i.resp i.resp_data hr))
fsm_widths write i d h hr = (h.address_width, h.data_width)
fsm_widths wait_write_valid i d h hr = (h.address_width, h.data_width)

dr_d-width : (i : Inputs) (d : Dtm) (busy : Bool) → IsWide d → length (dr_d i d busy) ≡ 41
dr_d-width i d busy h = ground (
  arith,
  length-shift_in i.tdi d.dr,
  length-dmi_of d.address d.data_reg no_error h.address_width h.data_width,
  length-dmi_of d.address d.data_reg dmi_busy h.address_width h.data_width,
)

-- Every edge keeps the widths of the registers, where the response has 32 bits of data.
pub step-IsWide : (i : Inputs) (d : Dtm) → IsWide d → length i.resp_data ≡ 32 → IsWide (step i d)
unfolding step
step-IsWide i d h hr = elim (Bool-cases (dmi_clear i d)) [
  | inl clear ↦ rw clear (record {
    dtmcs_width = length-dtmcs_d i d h.dtmcs_width;
    dr_width = refl;
    address_width = refl;
    data_width = refl;
    dmi_width = h.dmi_width;
  })
  | inr going ↦ rw going (record {
    dtmcs_width = length-dtmcs_d i d h.dtmcs_width;
    dr_width = dr_d-width i d (busy_now i d (fsm d.state i d).error_dmi_busy) h;
    address_width = (fsm_widths d.state i d h hr).0;
    data_width = (fsm_widths d.state i d h hr).1;
    dmi_width = h.dmi_width;
  })
]

fsm_waits :
    (s : State) (i : Inputs) (d : Dtm)
    → requesting s ≡ true
    → i.req_ready ≡ false
    → ((fsm s i d).state_d ≡ s)
      × ((fsm s i d).address_d ≡ d.address)
      × ((fsm s i d).data_d ≡ d.data_reg)
unfolding fsm
fsm_waits read i d shown waits = (rw waits, refl, refl)
fsm_waits write i d shown waits = (rw waits, refl, refl)
fsm_waits idle i d shown waits = cc
fsm_waits wait_read_valid i d shown waits = cc
fsm_waits wait_write_valid i d shown waits = cc

step_waits :
    (i : Inputs) (d : Dtm)
    → dmi_clear i d ≡ false
    → requesting d.state ≡ true
    → i.req_ready ≡ false
    → ((step i d).state ≡ d.state)
      × ((step i d).address ≡ d.address)
      × ((step i d).data_reg ≡ d.data_reg)
unfolding step
step_waits i d calm shown waits = rw calm (fsm_waits d.state i d shown waits)

&&-true : (a b : Bool) → (not a && b) ≡ true → (a ≡ false) × (b ≡ true)
&&-true a b h = ground arith

-- A request that is shown and not taken at an edge is shown again after it, the same, unless the
-- port clears the DMI.
pub request_waits :
    (i j : Inputs) (d : Dtm)
    → (request i d).valid ≡ true
    → i.req_ready ≡ false
    → dmi_clear j (step i d) ≡ false
    → request j (step i d) ≡ request i d
request_waits i j d shown waits going =
    let (calm, asking) = &&-true (dmi_clear i d) (requesting d.state) shown in
    let (state_kept, address_kept, data_kept) = step_waits i d calm asking waits in
    λ k. record {
      valid = not ((going ∙ sym calm) k) && requesting (state_kept k);
      addr = address_kept k;
      req_data = data_kept k;
      op = req_op (state_kept k);
    }

fsm_starts_nothing :
    (s : State) (i : Inputs) (d : Dtm)
    → is_no_error d.error ≡ false
    → (requesting (fsm s i d).state_d && not (requesting s)) ≡ false
unfolding fsm
fsm_starts_nothing idle i d marked = ground arith
fsm_starts_nothing read i d marked = ground arith
fsm_starts_nothing wait_read_valid i d marked = ground arith
fsm_starts_nothing write i d marked = ground arith
fsm_starts_nothing wait_write_valid i d marked = ground arith

unmarked :
    (failed busy : Bool) (e : DmiError)
    → (if failed && false then op_failed else if busy && false then dmi_busy else e) ≡ e
unmarked true true e = refl
unmarked true false e = refl
unmarked false true e = refl
unmarked false false e = refl

-- An error sticks, and starts no request that was not already there, at every edge that neither
-- clears the DMI nor updates DTMCS with its `dmireset` bit set.
pub error_sticks :
    (i : Inputs) (d : Dtm)
    → is_no_error d.error ≡ false
    → dmi_clear i d ≡ false
    → (i.update && (dmireset d && i.dtmcs_select)) ≡ false
    → ((step i d).error ≡ d.error)
      × ((requesting (step i d).state && not (requesting d.state)) ≡ false)
unfolding step
error_sticks i d marked calm kept =
    rw calm (rw (marked, kept) (unmarked _ _ d.error), fsm_starts_nothing d.state i d marked)
