-- ===== src/Proxylab/Rio/Writen.antt =====
-- `rio_writen` of csapp.c writes all it is given, in whatever pieces the kernel takes it.
use git_sty.Base.{ℕ, ◌≡◌, refl, true, List, [], ◌∷◌, Text, drop, take-append-drop}
use git_sty.Proxylab.Rio.{Sink, takes, stops, breaks, writen_loop, rio_writen}

unfoldable pub Unbroken : List Sink → Type 0
Unbroken [] = ℕ
Unbroken (takes k ∷ es) = Unbroken es
Unbroken (stops ∷ es) = Unbroken es
Unbroken (breaks ∷ es) = ⊥

-- However `write` splits the bytes and however often a signal stops it, without an error
-- `rio_writen` writes all bytes, once each and in order, and returns their number.
pub rio_writen_lem : (es : List Sink) (bs : Text) → Unbroken es → rio_writen es bs ≡ (bs, true)
unfolding rio_writen writen_loop Unbroken
rio_writen_lem es [] h = refl
rio_writen_lem [] (b ∷ bs) h = refl
rio_writen_lem (takes k ∷ es) (b ∷ bs) h =
    rw (rio_writen_lem es (drop k bs) h, take-append-drop k bs)
rio_writen_lem (stops ∷ es) (b ∷ bs) h = rio_writen_lem es (b ∷ bs) h
rio_writen_lem (breaks ∷ es) (b ∷ bs) h = absurd h
