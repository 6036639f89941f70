-- ===== src/Gatt/Peripheral/Server/Ccc.antt =====
-- The loop that fills the table of CCC handles and the notification flags.
use btstack_rs.Common.{
  ℕ, ◌≡◌, ◌≢◌, refl, sym, ap, subst, ◌∙◌, Bool, false, some, [], ◌∷◌, arith, inl, inr, Option-cases,
}
use btstack_rs.Common.Dict.{
  Dict, lookup, insert, lookup-insert, lookup-insert_same, lookup-insert_cases,
}
use btstack_rs.Common.Dict.Every.{Every}
use btstack_rs.Gatt.Peripheral.Types.{RuntimeCharacteristic}
use btstack_rs.Gatt.Peripheral.Valid.{IsCccOf}
use btstack_rs.Gatt.Peripheral.Server.{fill_ccc}

-- Both tables speak of the characteristics of `chars`, and every flag is off.
pub record Filled (chars : Dict RuntimeCharacteristic) (cccs : Dict ℕ) (flags : Dict Bool)
    : Type 0 where
  pub sound :
      (ccc v : ℕ) → lookup ccc cccs ≡ some v → IsCccOf chars v ccc × (lookup v flags ≡ some false)
  pub off :
      (v : ℕ) (b : Bool) → lookup v flags ≡ some b → (b ≡ false) × ((ccc : ℕ) × IsCccOf chars v ccc)

nothing : {V : Type 0} (k : ℕ) (v : V) → lookup {V = V} k [] ≢ some v
unfolding lookup
nothing k v e = ground arith

pub Filled-empty : (chars : Dict RuntimeCharacteristic) → Filled chars [] []
Filled-empty chars = record {
  sound = λ ccc v e. absurd (nothing ccc v e);
  off = λ v b e. absurd (nothing v b e);
}

-- A flag that is off stays off when a flag is put in.
still_off :
    (h v : ℕ) (flags : Dict Bool)
    → lookup v flags ≡ some false
    → lookup v (insert h false flags) ≡ some false
still_off h v flags e = lookup-insert h v false flags ∙ ground arith

Filled-insert :
    (chars : Dict RuntimeCharacteristic) (cccs : Dict ℕ) (flags : Dict Bool) (c h : ℕ)
    → IsCccOf chars h c
    → Filled chars cccs flags
    → Filled chars (insert c h cccs) (insert h false flags)
Filled-insert chars cccs flags c h of_ filled = record {
  sound = λ ccc v e. elim (lookup-insert_cases c ccc h v cccs e) [
    | inl (same, there) ↦ (
      subst (IsCccOf chars v) same (subst (λ x. IsCccOf chars x c) there of_),
      ap (λ x. lookup x (insert h false flags)) (sym there) ∙ lookup-insert_same h false flags,
    )
    | inr (ne, before) ↦
        let (of', unset) = filled.sound ccc v before in (of', still_off h v flags unset)
  ];
  off = λ v b e. elim (lookup-insert_cases h v false b flags e) [
    | inl (same, there) ↦ (sym there, (c, subst (λ x. IsCccOf chars x c) same of_))
    | inr (ne, before) ↦ filled.off v b before
  ];
}

pub fill_ccc-Filled :
    (chars : Dict RuntimeCharacteristic) (entries : Dict RuntimeCharacteristic) (cccs : Dict ℕ)
    (flags : Dict Bool)
    → Every (λ h ch. lookup h chars ≡ some ch) entries
    → Filled chars cccs flags
    → Filled chars (fill_ccc entries (cccs, flags)).0 (fill_ccc entries (cccs, flags)).1
unfolding fill_ccc
fill_ccc-Filled chars [] cccs flags every filled = filled
fill_ccc-Filled chars ((h, meta) ∷ entries) cccs flags (found, every) filled =
    elim (Option-cases meta.ccc_handle) [
      | inl without ↦ rw without (fill_ccc-Filled chars entries cccs flags every filled)
      | inr (ccc, with_) ↦ rw with_ (
          fill_ccc-Filled chars entries (insert ccc h cccs) (insert h false flags) every
            (Filled-insert chars cccs flags ccc h (meta, found, with_) filled))
    ]

fill_ccc-still_off :
    (entries : Dict RuntimeCharacteristic) (cccs : Dict ℕ) (flags : Dict Bool) (v : ℕ)
    → lookup v flags ≡ some false
    → lookup v (fill_ccc entries (cccs, flags)).1 ≡ some false
unfolding fill_ccc
fill_ccc-still_off [] cccs flags v e = e
fill_ccc-still_off ((h, meta) ∷ entries) cccs flags v e = elim (Option-cases meta.ccc_handle) [
  | inl without ↦ rw without (fill_ccc-still_off entries cccs flags v e)
  | inr (ccc, with_) ↦ rw with_ (
      fill_ccc-still_off entries (insert ccc h cccs) (insert h false flags) v
        (still_off h v flags e))
]

-- A characteristic that has a CCC has a flag, which is off.
abbrev pub IsFlagged : Dict Bool → ℕ → RuntimeCharacteristic → Type 0
IsFlagged flags v ch = (ccc : ℕ) → ch.ccc_handle ≡ some ccc → lookup v flags ≡ some false

pub fill_ccc-IsFlagged :
    (entries : Dict RuntimeCharacteristic) (cccs : Dict ℕ) (flags : Dict Bool)
    → Every (IsFlagged (fill_ccc entries (cccs, flags)).1) entries
unfolding fill_ccc
fill_ccc-IsFlagged [] cccs flags = tt
fill_ccc-IsFlagged ((h, meta) ∷ entries) cccs flags = elim (Option-cases meta.ccc_handle) [
  | inl without ↦
      let same : fill_ccc ((h, meta) ∷ entries) (cccs, flags) ≡ fill_ccc entries (cccs, flags) =
        rw without refl in
      subst (λ maps. Every (IsFlagged maps.1) ((h, meta) ∷ entries)) (sym same)
        (λ ccc e. ground arith, fill_ccc-IsFlagged entries cccs flags)
  | inr (ccc, with_) ↦
      let same : fill_ccc ((h, meta) ∷ entries) (cccs, flags)
          ≡ fill_ccc entries (insert ccc h cccs, insert h false flags) =
        rw with_ refl in
      subst (λ maps. Every (IsFlagged maps.1) ((h, meta) ∷ entries)) (sym same)
        (
          λ ccc' e.
              fill_ccc-still_off entries (insert ccc h cccs) (insert h false flags) h
                (lookup-insert_same h false flags),
          fill_ccc-IsFlagged entries (insert ccc h cccs) (insert h false flags),
        )
]
