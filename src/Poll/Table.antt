-- ===== src/Poll/Table.antt =====
-- The two vectors as a table: an entry for each key (descriptor and socket), its callback beside it.
use c3qo.Base.{
  ℕ, zero, suc, ◌+◌, ◌-◌, ◌≡◌, refl, ap, ◌∙◌, true, false, ◌⊎◌, inl, inr, List, [], ◌∷◌, ◌++◌, ℤ,
  pos, negsuc, Ptr, length, length-append, erase_idx, All, arith, Bool-cases,
}
use c3qo.World.{FileDesc, PollItem, Manager}
use c3qo.Poll.{
  modify_at, is_entry, find_from, fd_find, new_item, mask, store_entry, register, erase_at,
  unregister,
}

abbrev pub NoEntry : ℤ → Ptr → List PollItem → Type 0
NoEntry fd socket l = All (λ x. is_entry fd socket x ≡ false) l

-- `k` is the index of the first entry of that key.
abbrev pub FirstAt : ℤ → Ptr → List PollItem → ℕ → Type 0
FirstAt fd socket [] k = ⊥
FirstAt fd socket (x ∷ l) zero = is_entry fd socket x ≡ true
FirstAt fd socket (x ∷ l) (suc k) = (is_entry fd socket x ≡ false) × FirstAt fd socket l k

find_from-cases :
    (i : ℕ) (fd : ℤ) (socket : Ptr) (l : List PollItem)
    → ((find_from i fd socket l ≡ negsuc 0) × NoEntry fd socket l)
      ⊎ ((k : ℕ) × (find_from i fd socket l ≡ pos (i + k)) × FirstAt fd socket l k)
unfolding find_from
find_from-cases i fd socket [] = inl (refl, tt)
find_from-cases i fd socket (x ∷ l) = elim (Bool-cases (is_entry fd socket x)) [
  | inl hit ↦ inr (0, rw (hit, find_from) (ap pos (omega arith)), hit)
  | inr miss ↦ elim (find_from-cases (suc i) fd socket l) [
    | inl (e, n) ↦ inl (rw (miss, find_from) e, (miss, n))
    | inr (k, e, f) ↦ inr (suc k, rw (miss, find_from) (e ∙ ap pos (omega arith)), (miss, f))
  ]
]

-- `fd_find` returns the index of the first entry of the key, or -1 where no entry has that key.
pub fd_find-cases :
    (fd : ℤ) (socket : Ptr) (l : List PollItem)
    → ((fd_find fd socket l ≡ negsuc 0) × NoEntry fd socket l)
      ⊎ ((k : ℕ) × (fd_find fd socket l ≡ pos k) × FirstAt fd socket l k)
unfolding fd_find
fd_find-cases fd socket l = elim (find_from-cases 0 fd socket l) [
  | inl none_there ↦ inl none_there
  | inr (k, e, f) ↦ inr (k, e ∙ ap pos (omega arith), f)
]

modify_at-last :
    (l : List PollItem) (x : PollItem) (f : PollItem → PollItem)
    → modify_at (l ++ x ∷ []) (length (l ++ x ∷ []) - 1) f ≡ l ++ f x ∷ []
modify_at-last l x f = rw (length-minus l) (go l)
  where
    length-minus : (l : List PollItem) → length (l ++ x ∷ []) - 1 ≡ length l
    length-minus l = omega (arith, length-append {0} l (x ∷ []))

    go : (l : List PollItem) → modify_at (l ++ x ∷ []) (length l) f ≡ l ++ f x ∷ []
    go [] = refl
    go (y ∷ l) = ap (◌∷◌ y) (go l)

abbrev pub set_mask : FileDesc → PollItem → PollItem
set_mask d item = record item { events = mask d }

-- The entry that `fd_add` leaves for its argument.
abbrev pub entry_of : FileDesc → PollItem
entry_of d = set_mask d (new_item d)

pub register-new :
    (d : FileDesc) (m : Manager)
    → fd_find d.fd d.socket m.fd ≡ negsuc 0
    → register d m ≡ record m {
      callback = m.callback ++ d ∷ [];
      fd = m.fd ++ entry_of d ∷ [];
      epoch = suc m.epoch;
    }
unfolding register
register-new d m e = rw (e, store_entry) (rw (modify_at-last m.fd (new_item d) (set_mask d)))

pub register-old :
    (d : FileDesc) (m : Manager) (k : ℕ)
    → fd_find d.fd d.socket m.fd ≡ pos k
    → register d m ≡ record m { fd = modify_at m.fd k (set_mask d) }
unfolding register
register-old d m k e = rw (e, store_entry)

pub unregister-none :
    (d : FileDesc) (m : Manager) → fd_find d.fd d.socket m.fd ≡ negsuc 0 → unregister d m ≡ m
unfolding unregister
unregister-none d m e = rw (e, erase_at)

pub unregister-some :
    (d : FileDesc) (m : Manager) (k : ℕ)
    → fd_find d.fd d.socket m.fd ≡ pos k
    → unregister d m
      ≡ record m { callback = erase_idx m.callback k; fd = erase_idx m.fd k; epoch = suc m.epoch }
unfolding unregister
unregister-some d m k e = rw (e, erase_at)

-- The two operations change the vectors and their epoch only.
pub register-rest :
    (d : FileDesc) (m : Manager)
    → ((register d m).bk_map ≡ m.bk_map) × ((register d m).tm_list ≡ m.tm_list)
register-rest d m = elim (fd_find-cases d.fd d.socket m.fd) [
  | inl (e, _) ↦ rw (register-new d m e) (refl, refl)
  | inr (k, e, _) ↦ rw (register-old d m k e) (refl, refl)
]

pub unregister-rest :
    (d : FileDesc) (m : Manager)
    → ((unregister d m).bk_map ≡ m.bk_map) × ((unregister d m).tm_list ≡ m.tm_list)
unregister-rest d m = elim (fd_find-cases d.fd d.socket m.fd) [
  | inl (e, _) ↦ rw (unregister-none d m e) (refl, refl)
  | inr (k, e, _) ↦ rw (unregister-some d m k e) (refl, refl)
]
