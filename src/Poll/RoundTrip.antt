-- ===== src/Poll/RoundTrip.antt =====
-- `fd_add` and then `fd_remove`: engine/src/manager_fd.cpp.
use c3qo.Base.{
  ℕ, zero, suc, ◌≡◌, refl, ap, true, List, [], ◌∷◌, ◌++◌, ℤ, pos, negsuc, ◌∙◌, Ptr, eq_ptr_iff,
  length, erase_idx, arith, inl, inr,
}
use c3qo.World.{FileDesc, PollItem, Manager}
use c3qo.Poll.{is_entry, register, unregister, erase_at, fd_find}
use c3qo.Poll.Table.{NoEntry, FirstAt, fd_find-cases, entry_of, register-new, unregister-some}
use c3qo.Poll.Valid.{HasTable, Aligned}

erase_idx-last {ℓ} : {A : Type ℓ} (l : List A) (x : A) → erase_idx (l ++ x ∷ []) (length l) ≡ l
erase_idx-last [] x = refl
erase_idx-last (y ∷ l) x = ap (◌∷◌ y) (erase_idx-last l x)

Aligned-length : (cs : List FileDesc) (l : List PollItem) → Aligned cs l → length l ≡ length cs
Aligned-length [] [] a = refl
Aligned-length [] (x ∷ l) a = absurd a
Aligned-length (c ∷ cs) [] a = absurd a
Aligned-length (c ∷ cs) (x ∷ l) a = ap suc (Aligned-length cs l a.2)

not-FirstAt : (fd : ℤ) (s : Ptr) (l : List PollItem) (k : ℕ) → NoEntry fd s l → ¬ FirstAt fd s l k
not-FirstAt fd s [] k n f = f
not-FirstAt fd s (x ∷ l) zero n f = ground arith
not-FirstAt fd s (x ∷ l) (suc k) n f = not-FirstAt fd s l k n.1 f.1

module _ (d : FileDesc) where
  own_entry : is_entry d.fd d.socket (entry_of d) ≡ true
  own_entry = ground (arith, eq_ptr_iff d.socket d.socket)

  FirstAt-last :
      (l : List PollItem) (k : ℕ)
      → NoEntry d.fd d.socket l
      → FirstAt d.fd d.socket (l ++ entry_of d ∷ []) k
      → k ≡ length l
  FirstAt-last [] zero n f = refl
  FirstAt-last [] (suc k) n f = absurd f.1
  FirstAt-last (x ∷ l) zero n f = ground arith
  FirstAt-last (x ∷ l) (suc k) n f = ap suc (FirstAt-last l k n.1 f.1)

  not-NoEntry : (l : List PollItem) → ¬ NoEntry d.fd d.socket (l ++ entry_of d ∷ [])
  not-NoEntry [] n = let own = own_entry in ground arith
  not-NoEntry (x ∷ l) n = not-NoEntry l n.1

  -- On a well-formed table where the key is free, `fd_remove` undoes `fd_add`: both vectors are again
  -- what they were.
  pub unregister-register :
      (m : Manager)
      → HasTable m
      → NoEntry d.fd d.socket m.fd
      → ((unregister d (register d m)).fd ≡ m.fd)
        × ((unregister d (register d m)).callback ≡ m.callback)
  unregister-register m t free = elim (fd_find-cases d.fd d.socket m.fd) [
    | inr (k, e, f) ↦ absurd (not-FirstAt d.fd d.socket m.fd k free f)
    | inl (e, n) ↦
        rw (register-new d m e) (elim (fd_find-cases d.fd d.socket (m.fd ++ entry_of d ∷ [])) [
          | inl (e', n') ↦ absurd (not-NoEntry m.fd n')
          | inr (k, e', f) ↦
              let last : k ≡ length m.fd = FirstAt-last m.fd k free f in
              rw
                (
                  unregister-some d
                      (record m {
                        callback = m.callback ++ d ∷ [];
                        fd = m.fd ++ entry_of d ∷ [];
                        epoch = suc m.epoch;
                      })
                      k e',
                  last,
                )
                (
                  erase_idx-last m.fd (entry_of d),
                  rw (Aligned-length m.callback m.fd t.aligned) (erase_idx-last m.callback d),
                )
        ])
  ]

  erase_at-vectors :
      (m m' : Manager) (k : ℤ)
      → m.fd ≡ m'.fd
      → m.callback ≡ m'.callback
      → ((erase_at m k).fd ≡ (erase_at m' k).fd)
        × ((erase_at m k).callback ≡ (erase_at m' k).callback)
  unfolding erase_at
  erase_at-vectors m m' (negsuc k) same_fd same_callback = (same_fd, same_callback)
  erase_at-vectors m m' (pos i) same_fd same_callback =
      (ap (λ l. erase_idx l i) same_fd, ap (λ l. erase_idx l i) same_callback)

  -- `fd_remove` reads nothing but the two vectors.
  pub unregister-vectors :
      (m m' : Manager)
      → m.fd ≡ m'.fd
      → m.callback ≡ m'.callback
      → ((unregister d m).fd ≡ (unregister d m').fd)
        × ((unregister d m).callback ≡ (unregister d m').callback)
  unfolding unregister
  unregister-vectors m m' same_fd same_callback =
      let erased = erase_at-vectors m m' (fd_find d.fd d.socket m.fd) same_fd same_callback in
      let index = ap (fd_find d.fd d.socket) same_fd in
      (
        erased.0 ∙ ap (λ k. (erase_at m' k).fd) index,
        erased.1 ∙ ap (λ k. (erase_at m' k).callback) index,
      )
