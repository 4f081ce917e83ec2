-- ===== src/Hostsfile/Saving.antt =====
-- `Save` of pkg/hostsfile/parser.go, the disk and the lock.
use localizer.Base.{
  ℕ, ◌≡◌, ◌≢◌, refl, false, List, [], Bytes, err, blocked, str_eq, str_eq_iff, Bool-cases, inl, inr,
}
use localizer.Hostsfile.Scanner.{Context}
use localizer.Hostsfile.Block.{Platform}
use localizer.Hostsfile.{File, Disk, load, marshal, save, add_hosts, remove_address}

module _ (p : Platform) (f : File) (d : Disk) (located : f.file_location ≢ [])
    (free : f.locked ≡ false) where
  -- When the read of the disk fails, `Save` returns its error with the lock held, and then
  -- every method of the file waits for ever.
  pub save_keeps_lock :
      (ctx : Context) (now : ℕ) (e : Bytes)
      → d.text ≡ err e
      → let g = (save p ctx now f d).0 in
        ((save p ctx now f d).2 ≡ err e)
        × ((c : Context) → (load p c g).1 ≡ blocked)
        × ((c : Context) (n : ℕ) → (marshal p c n g).1 ≡ blocked)
        × ((ip : Bytes) (hosts : List Bytes) → (add_hosts p ip hosts g).1 ≡ blocked)
        × ((ip : Bytes) → (remove_address ip g).1 ≡ blocked)
        × ((c : Context) (n : ℕ) (disk : Disk) → (save p c n g disk).2 ≡ blocked)
  unfolding save load marshal add_hosts remove_address
  save_keeps_lock ctx now e failed = elim (Bool-cases (str_eq f.file_location [])) [
    | inl empty ↦ absurd (located ((str_eq_iff f.file_location []).0 empty))
    | inr there ↦
        rw (there, free, failed)
          (refl, λ c. refl, λ c n. refl, λ ip hosts. refl, λ ip. refl, λ c n disk. rw there)
  ]
