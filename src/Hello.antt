-- ===== src/Hello.antt =====
-- block/hello: a block that counts what passes through it.
use c3qo.Base.{ℕ, suc, ◌-◌, ◌^◌, Bool, true, ltb, if◌then◌else◌}
use c3qo.World.{Message, M, pure, fail, overflow, ◌>>=◌, ◌>>◌}
use c3qo.Classes.{Class, hello, hello_at, set_self}

-- `INT_MAX`
abbrev pub int_max : ℕ
int_max = 2 ^ 31 - 1

abbrev pub new_hello : Class
new_hello = hello (record { name = "unknown"; count = 0 })

module _ {E : Type 0} where
  -- `++count_`, on an `int`
  unfoldable pub bump_count : ℕ → M Class E (Unit {0})
  bump_count p = do
    h ← hello_at p
    if ltb h.count int_max
        then set_self p (hello (record h { count = suc h.count }))
        else fail overflow

  unfoldable pub hello_data : ℕ → Message → M Class E Bool
  hello_data p msg = do bump_count p; pure true

  unfoldable pub hello_ctrl : ℕ → Message → M Class E (Unit {0})
  hello_ctrl p msg = bump_count p
