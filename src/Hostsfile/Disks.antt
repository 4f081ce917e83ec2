-- ===== src/Hostsfile/Disks.antt =====
-- The disk under `Save`, pkg/hostsfile/parser.go.
use localizer.Base.{
  ℕ, ◌≡◌, refl, [], Bool, true, false, Option, none, some, Bytes, codes, Result, ok, err, panic,
  blocked, goes_on, wrap, arith, str_eq, Option-cases, Bool-cases, inl, inr, is_ok, is_err,
  is_panic, is_blocked, result_cases,
}
use localizer.Hostsfile.Scanner.{Context}
use localizer.Hostsfile.Block.{Platform}
use localizer.Hostsfile.{File, Disk, marshal, save_marshalled, save, write_file}
use localizer.Hostsfile.Returning.{Answers, methods-answers}

abbrev is_value {ℓ} : {A : Type ℓ} → Result A → Bool
is_value (ok _) = true
is_value (err _) = false
is_value panic = false
is_value blocked = false

-- What a failing write leaves can be read.
abbrev leaves_text : Option (Bytes × Result Bytes) → Bool
leaves_text none = true
leaves_text (some (e, left)) = is_value left

-- A disk that can be read, and still can be after any write.
pub record IsReadable (d : Disk) : Type 0 where
  pub readable : is_value d.text ≡ true
  pub rewritable : leaves_text d.write_fault ≡ true

write_file-IsReadable : (b : Bytes) (d : Disk) → IsReadable d → IsReadable (write_file b d).0
unfolding write_file
write_file-IsReadable b d h = elim (Option-cases d.write_fault) [
  | inl works ↦ rw (works, write_file) (record { readable = refl; rewritable = h.rewritable })
  | inr ((e, left), fails) ↦
      rw (fails, write_file)
        (record { readable = ground (arith, fails); rewritable = h.rewritable })
]

module _ (p : Platform) where
  save_marshalled-IsReadable :
      (ctx : Context) (now : ℕ) (f : File) (d : Disk)
      → IsReadable d
      → IsReadable (save_marshalled p ctx now f d).1
  unfolding save_marshalled
  save_marshalled-IsReadable ctx now f d h =
      elim (result_cases (wrap (codes "failed to marshal hostsfile") (marshal p ctx now f).1)) [
        | is_ok b e ↦ rw (e, save_marshalled) (write_file-IsReadable b d h)
        | is_err m e ↦ rw (e, save_marshalled) h
        | is_panic e ↦ rw (e, save_marshalled) h
        | is_blocked e ↦ rw (e, save_marshalled) h
      ]

  save-IsReadable :
      (ctx : Context) (now : ℕ) (f : File) (d : Disk)
      → IsReadable d
      → IsReadable (save p ctx now f d).1
  unfolding save
  save-IsReadable ctx now f d h = elim (Bool-cases (str_eq f.file_location [])) [
    | inl nowhere ↦ rw (nowhere, save) h
    | inr somewhere ↦ elim (Bool-cases f.locked) [
      | inl held ↦ rw (somewhere, held, save) h
      | inr free ↦ elim (result_cases d.text) [
        | is_ok b e ↦
            rw (somewhere, free, e, save)
              (save_marshalled-IsReadable ctx now (record f { contents = b }) d h)
        | is_err m e ↦ absurd (ground (arith, h.readable))
        | is_panic e ↦ absurd (ground (arith, h.readable))
        | is_blocked e ↦ absurd (ground (arith, h.readable))
      ]
    ]
  ]

  pub save-ready :
      (answers : Answers p) (ctx : Context) (now : ℕ) (f : File) (d : Disk)
      → f.locked ≡ false
      → IsReadable d
      → ((save p ctx now f d).0.locked ≡ false)
        × (goes_on (save p ctx now f d).2 ≡ true)
        × IsReadable (save p ctx now f d).1
  save-ready answers ctx now f d free h = elim (result_cases d.text) [
    | is_ok b e ↦
        let (unlocked, went) = (methods-answers p answers ctx f free).5 now d b e in
        (unlocked, went, save-IsReadable ctx now f d h)
    | is_err m e ↦ absurd (ground (arith, h.readable))
    | is_panic e ↦ absurd (ground (arith, h.readable))
    | is_blocked e ↦ absurd (ground (arith, h.readable))
  ]
