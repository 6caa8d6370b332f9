-- ===== src/Poll/Valid.antt =====
-- The invariant of the two vectors, and that `fd_add` and `fd_remove` keep it.
use c3qo.Base.{
  ℕ, zero, suc, ◌≡◌, ◌≢◌, refl, true, false, ◌&&◌, ◌⊎◌, inl, inr, none, List, [], ◌∷◌, ◌++◌, ℤ, pos,
  ltb_ℤ, Ptr, eq_ptr, eq_ptr_iff, erase_idx, All, arith, Bool-cases, Option-cases,
}
use c3qo.World.{FileDesc, PollItem, Manager, World, ok}
use c3qo.World.Keeps.{Post}
use c3qo.Poll.{modify_at, is_entry, register, unregister, fd_add, fd_remove}
use c3qo.Poll.Table.{
  NoEntry, fd_find-cases, set_mask, entry_of, register-new, register-old, unregister-none,
  unregister-some,
}

-- One callback to each entry, under the same descriptor and socket.
abbrev pub Aligned : List FileDesc → List PollItem → Type 0
Aligned [] [] = Unit
Aligned [] (x ∷ l) = ⊥
Aligned (c ∷ cs) [] = ⊥
Aligned (c ∷ cs) (x ∷ l) = (x.fd ≡ c.fd) × (x.socket ≡ c.socket) × Aligned cs l

abbrev pub IsDistinct : List PollItem → Type 0
IsDistinct [] = Unit
IsDistinct (x ∷ l) = NoEntry x.fd x.socket l × IsDistinct l

-- What `fd_add` demands of its argument.
abbrev pub IsUsable : FileDesc → Type 0
IsUsable c = (c.bk ≢ none) × ((ltb_ℤ c.fd (pos 0) && eq_ptr c.socket none) ≡ false)

pub record IsTable (cs : List FileDesc) (l : List PollItem) : Type 0 where
  pub aligned : Aligned cs l
  pub distinct : IsDistinct l
  pub usable : All IsUsable cs

abbrev pub HasTable : Manager → Type 0
HasTable m = IsTable m.callback m.fd

pub is_entry_sym :
    (x y : PollItem) → is_entry x.fd x.socket y ≡ false → is_entry y.fd y.socket x ≡ false
is_entry_sym x y h = ground (arith, eq_ptr_iff x.socket y.socket, eq_ptr_iff y.socket x.socket)

module _ (d : FileDesc) where
  Aligned-modify :
      (cs : List FileDesc) (l : List PollItem) (k : ℕ)
      → Aligned cs l
      → Aligned cs (modify_at l k (set_mask d))
  Aligned-modify [] [] k a = tt
  Aligned-modify [] (x ∷ l) k a = absurd a
  Aligned-modify (c ∷ cs) [] k a = absurd a
  Aligned-modify (c ∷ cs) (x ∷ l) zero a = a
  Aligned-modify (c ∷ cs) (x ∷ l) (suc k) a = (a.0, a.1, Aligned-modify cs l k a.2)

  NoEntry-modify :
      (fd : ℤ) (socket : Ptr) (l : List PollItem) (k : ℕ)
      → NoEntry fd socket l
      → NoEntry fd socket (modify_at l k (set_mask d))
  NoEntry-modify fd socket [] k n = tt
  NoEntry-modify fd socket (x ∷ l) zero n = n
  NoEntry-modify fd socket (x ∷ l) (suc k) n = (n.0, NoEntry-modify fd socket l k n.1)

  IsDistinct-modify :
      (l : List PollItem) (k : ℕ) → IsDistinct l → IsDistinct (modify_at l k (set_mask d))
  IsDistinct-modify [] k n = tt
  IsDistinct-modify (x ∷ l) zero n = n
  IsDistinct-modify (x ∷ l) (suc k) n =
      (NoEntry-modify x.fd x.socket l k n.0, IsDistinct-modify l k n.1)

  Aligned-append :
      (cs : List FileDesc) (l : List PollItem)
      → Aligned cs l
      → Aligned (cs ++ d ∷ []) (l ++ entry_of d ∷ [])
  Aligned-append [] [] a = (refl, refl, tt)
  Aligned-append [] (x ∷ l) a = absurd a
  Aligned-append (c ∷ cs) [] a = absurd a
  Aligned-append (c ∷ cs) (x ∷ l) a = (a.0, a.1, Aligned-append cs l a.2)

  NoEntry-append :
      (x : PollItem) (l : List PollItem)
      → NoEntry x.fd x.socket l
      → is_entry x.fd x.socket (entry_of d) ≡ false
      → NoEntry x.fd x.socket (l ++ entry_of d ∷ [])
  NoEntry-append x [] n h = (h, tt)
  NoEntry-append x (y ∷ l) n h = (n.0, NoEntry-append x l n.1 h)

  IsDistinct-append :
      (l : List PollItem)
      → NoEntry d.fd d.socket l
      → IsDistinct l
      → IsDistinct (l ++ entry_of d ∷ [])
  IsDistinct-append [] n a = (tt, tt)
  IsDistinct-append (x ∷ l) n a =
      (NoEntry-append x l a.0 (is_entry_sym (entry_of d) x n.0), IsDistinct-append l n.1 a.1)

module _ {ℓ} {A : Type ℓ} where
  pub All-snoc {κ} : (P : A → Type κ) (l : List A) (x : A) → All P l → P x → All P (l ++ x ∷ [])
  All-snoc P [] x a h = (h, tt)
  All-snoc P (y ∷ l) x a h = (a.0, All-snoc P l x a.1 h)

  pub All-erase_idx {κ} : (P : A → Type κ) (l : List A) (k : ℕ) → All P l → All P (erase_idx l k)
  All-erase_idx P [] k a = tt
  All-erase_idx P (y ∷ l) zero a = a.1
  All-erase_idx P (y ∷ l) (suc k) a = (a.0, All-erase_idx P l k a.1)

Aligned-erase :
    (cs : List FileDesc) (l : List PollItem) (k : ℕ)
    → Aligned cs l
    → Aligned (erase_idx cs k) (erase_idx l k)
Aligned-erase [] [] k a = tt
Aligned-erase [] (x ∷ l) k a = absurd a
Aligned-erase (c ∷ cs) [] k a = absurd a
Aligned-erase (c ∷ cs) (x ∷ l) zero a = a.2
Aligned-erase (c ∷ cs) (x ∷ l) (suc k) a = (a.0, a.1, Aligned-erase cs l k a.2)

IsDistinct-erase : (l : List PollItem) (k : ℕ) → IsDistinct l → IsDistinct (erase_idx l k)
IsDistinct-erase [] k n = tt
IsDistinct-erase (x ∷ l) zero n = n.1
IsDistinct-erase (x ∷ l) (suc k) n = (All-erase_idx _ l k n.0, IsDistinct-erase l k n.1)

pub register-IsTable :
    (d : FileDesc) (m : Manager) → IsUsable d → HasTable m → HasTable (register d m)
register-IsTable d m u t = elim (fd_find-cases d.fd d.socket m.fd) [
  | inl (e, n) ↦ rw (register-new d m e) (record {
    aligned = Aligned-append d m.callback m.fd t.aligned;
    distinct = IsDistinct-append d m.fd n t.distinct;
    usable = All-snoc IsUsable m.callback d t.usable u;
  })
  | inr (k, e, f) ↦ rw (register-old d m k e) (record {
    aligned = Aligned-modify d m.callback m.fd k t.aligned;
    distinct = IsDistinct-modify d m.fd k t.distinct;
    usable = t.usable;
  })
]

pub unregister-IsTable : (d : FileDesc) (m : Manager) → HasTable m → HasTable (unregister d m)
unregister-IsTable d m t = elim (fd_find-cases d.fd d.socket m.fd) [
  | inl (e, n) ↦ rw (unregister-none d m e) t
  | inr (k, e, f) ↦ rw (unregister-some d m k e) (record {
    aligned = Aligned-erase m.callback m.fd k t.aligned;
    distinct = IsDistinct-erase m.fd k t.distinct;
    usable = All-erase_idx IsUsable m.callback k t.usable;
  })
]

module _ {S E : Type 0} (d : FileDesc) (w : World S E) where
  -- `fd_add` refuses an entry with no block, and one with neither a descriptor nor a socket, and
  -- changes nothing then; it registers any other.
  pub fd_add-cases :
      (IsUsable d × (fd_add d w ≡ ok (true, record w { mgr = register d w.mgr })))
      ⊎ ((¬ IsUsable d) × (fd_add d w ≡ ok (false, w)))
  unfolding fd_add
  fd_add-cases = elim (Option-cases d.bk) [
    | inl null ↦ inr (λ u. u.0 null, ground arith)
    | inr (p, at) ↦ elim (Bool-cases (ltb_ℤ d.fd (pos 0) && eq_ptr d.socket none)) [
      | inl bad ↦ inr (λ u. cc, ground arith)
      | inr good ↦ inl ((λ e. cc, good), ground arith)
    ]
  ]

  -- `fd_add` keeps the vectors aligned, with one entry to a key and none without a block.
  pub fd_add-IsTable : HasTable w.mgr → Post (λ _ w'. HasTable w'.mgr) (fd_add d w)
  fd_add-IsTable t = elim fd_add-cases [
    | inl (u, e) ↦ rw e (register-IsTable d w.mgr u t)
    | inr (_, e) ↦ rw e t
  ]

  -- `fd_remove` keeps them so, too.
  pub fd_remove-IsTable : HasTable w.mgr → Post (λ _ w'. HasTable w'.mgr) (fd_remove d w)
  unfolding fd_remove
  fd_remove-IsTable t = unregister-IsTable d w.mgr t
