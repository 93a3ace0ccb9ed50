-- ===== src/Judge/Truncate/Budget.antt =====
-- The truncated evidence fits its budget.
use agent_belt.Prelude.{
  ℕ, zero, suc, ◌+◌, ◌-◌, ◌*◌, ◌/◌, ◌%◌, ◌≤◌, ◌<◌, ◌≡◌, ◌⊎◌, refl, Bool, true, false, List, [], ◌∷◌,
  take, length, length-append, leb, Bool-cases, inl, inr, arith,
}
use agent_belt.Judge.Truncate.{
  Section, drop, min, tail_of, keep_part, truncate_section, section_len, total_len, min_size,
  digits, marker, marker_end, Text, to_remove, shorten, fit, fit_all, truncate_to_budget,
}

length-take : {A : Type 0} (n : ℕ) (xs : List A) → length (take n xs) ≤ n
length-take zero xs = omega arith
length-take (suc n) [] = omega arith
length-take (suc n) (x ∷ xs) = omega (arith, length-take n xs)

length-drop : {A : Type 0} (n : ℕ) (xs : List A) → length (drop n xs) ≡ length xs - n
length-drop zero xs = omega arith
length-drop (suc n) [] = omega arith
length-drop (suc n) (x ∷ xs) = omega (arith, length-drop n xs)

keep_part-le :
    (b : Bool) (budget : ℕ) (cut text : Text)
    → length cut < budget
    → budget < length text
    → length (keep_part b (budget - length cut) cut text) ≤ budget
keep_part-le true budget cut text l m = ground (
  arith,
  length-append cut (tail_of (budget - length cut) text),
  length-drop (length text - (budget - length cut)) text,
)
keep_part-le false budget cut text l m = omega (
  arith,
  length-append (take (budget - length cut) text) cut,
  length-take (budget - length cut) text,
)

truncate_section-le :
    (text : Text) (budget : ℕ) (b : Bool)
    → length (marker (length text - budget)) < budget
    → length (truncate_section text budget b) ≤ budget
unfolding truncate_section
truncate_section-le text budget b h =
    ground (arith, keep_part-le b budget (marker (length text - budget)) text h)

-- Below this number a notice is shorter than what is left of a section, 40 characters.
abbrev pub marker_limit : ℕ
marker_limit = 1000000000000000

ten_to : ℕ → ℕ
ten_to zero = 1
ten_to (suc k) = 10 * ten_to k

length-digits : (k fuel n : ℕ) → n < ten_to (suc k) → length (digits fuel n) ≤ suc k
unfolding digits ten_to
length-digits k zero n h = omega arith
length-digits zero (suc fuel) n h = ground (arith, h)
length-digits (suc k) (suc fuel) n h = ground (
  arith,
  h,
  length-append (digits fuel (n / 10)) ((48 + n % 10) ∷ []),
  length-digits k fuel (n / 10),
)

length-marker : (n : ℕ) → n < marker_limit → length (marker n) < 40
unfolding ten_to
length-marker n h =
    omega (arith, length-digits 14 (suc n) n h, length-append (digits (suc n) n) marker_end)

-- The least that a section is cut to: its header and 40 characters, or all of it.
abbrev pub floor : Section → ℕ
floor s = length s.header + min (length s.content) 40

abbrev pub floors : List Section → ℕ
floors [] = 0
floors (s ∷ ss) = floor s + floors ss

shorten-le :
    (excess : ℕ) (s : Section)
    → section_len s < marker_limit
    → min_size s < section_len s
    → length (shorten excess s).content ≤ length s.content - to_remove excess s
shorten-le excess s h l =
    let budget = length s.content - to_remove excess s in
    truncate_section-le s.content budget s.keep_tail
      (ground (arith, l, h, length-marker (length s.content - budget)))

-- A turn of the loop removes what it takes from the excess, and takes all it can.
abbrev Fitted : ℕ → ℕ → ℕ → ℕ → ℕ → Type 0
Fitted excess before least after left =
    (after + (excess - left) ≤ before) × (left ≤ excess) × ((left ≡ 0) ⊎ (after ≤ least))

cut-Fitted :
    (x hd l c r : ℕ)
    → hd + 40 < hd + l
    → r ≡ min (hd + l - (hd + 40)) x
    → c ≤ l - r
    → Fitted x (hd + l) (hd + min l 40) (hd + c) (x - r)
cut-Fitted x hd l c r p q k = elim (Bool-cases (leb (hd + l - (hd + 40)) x)) [
  | inl e ↦ (ground (arith, e, q, k), omega arith, inr (ground (arith, e, q, k)))
  | inr e ↦ (ground (arith, e, q, k), omega arith, inl (ground (arith, e, q, k)))
]

fit-Fitted :
    (excess : ℕ) (s : Section)
    → section_len s < marker_limit
    → Fitted excess (section_len s) (floor s) (section_len (fit excess s).0) ((fit excess s).1)
unfolding fit
fit-Fitted excess s h = elim (Bool-cases (leb excess 0)) [
  | inl e ↦ rw e (omega arith, omega arith, inl (ground (arith, e)))
  | inr e ↦ elim (Bool-cases (leb (section_len s) (min_size s))) [
    | inl f ↦ rw e (rw f (omega arith, omega arith, inr (ground (arith, f))))
    | inr f ↦
        let longer : min_size s < section_len s = ground (arith, f) in
        rw e (
          rw f (
            cut-Fitted excess (length s.header) (length s.content)
              (length (shorten excess s).content) (to_remove excess s) longer refl
              (shorten-le excess s h longer)))
  ]
]

fit_all-Fitted :
    (excess : ℕ) (ss : List Section)
    → total_len ss < marker_limit
    → Fitted excess
        (total_len ss)
        (floors ss)
        (total_len (fit_all excess ss).0)
        ((fit_all excess ss).1)
unfolding fit_all
fit_all-Fitted excess [] h = (omega arith, omega arith, inr (omega arith))
fit_all-Fitted excess (s ∷ ss) h =
    let ih = fit_all-Fitted excess ss (omega (arith, h)) in
    let step = fit-Fitted (fit_all excess ss).1 s (omega (arith, h)) in
    (
      omega (arith, ih.0, ih.1, step.0, step.1),
      omega (arith, ih.1, step.1),
      elim (step.2) [
        | inl z ↦ inl z
        | inr k ↦ elim (ih.2) [
          | inl z ↦ inl (omega (arith, z, step.1))
          | inr l ↦ inr (omega (arith, k, l))
        ]
      ],
    )

-- Evidence of fewer than 10 ^ 15 characters, so that a notice is shorter than 40 of them, fits the
-- budget when it is cut; or it is no longer than the headers with 40 characters of each content.
pub truncate_to_budget-bounded :
    (sections : List Section) (budget : ℕ)
    → total_len sections < marker_limit
    → (total_len (truncate_to_budget sections budget) ≤ budget)
      ⊎ (total_len (truncate_to_budget sections budget) ≤ floors sections)
unfolding truncate_to_budget
truncate_to_budget-bounded sections budget h =
    let total = total_len sections in
    elim (Bool-cases (leb total budget)) [
      | inl e ↦ rw e (inl (ground (arith, e)))
      | inr e ↦
          let fitted = fit_all-Fitted (total - budget) sections h in
          rw e (elim (fitted.2) [ inl z ↦ inl (ground (arith, e, z, fitted.0)) | inr k ↦ inr k ])
    ]
