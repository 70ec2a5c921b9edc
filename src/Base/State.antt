-- ===== src/Base/State.antt =====
-- Code that changes a state: a function from the state to a value and the next state.

abbrev pub Act : Type 0 → Type 0 → Type 0
Act St A = St → A × St

unfoldable pub pure : {St A : Type 0} → A → Act St A
pure a s = (a, s)

infixl 5 ◌>>=◌ ◌>>◌
unfoldable pub ◌>>=◌ : {St A B : Type 0} → Act St A → (A → Act St B) → Act St B
◌>>=◌ m f s = f (m s).0 (m s).1

unfoldable pub ◌>>◌ : {St A B : Type 0} → Act St A → Act St B → Act St B
◌>>◌ m n s = n (m s).1

unfoldable pub gets : {St A : Type 0} → (St → A) → Act St A
gets f s = (f s, s)

unfoldable pub modify : {St : Type 0} → (St → St) → Act St (Unit {0})
modify f s = (tt, f s)
