-- ===== src/Proxylab/Rio/Tests.antt =====
-- Runs of the Rio routines.
use git_sty.Base.{◌≡◌, true, [], ◌∷◌, arith}
use git_sty.Proxylab.Rio.{
  chunk, signal, Source, Rio, rio_readinitb, rio_readnb, rio_readlineb, takes, stops, rio_writen,
}
use git_sty.Proxylab.Rio.Source.{contents, rest, IsClean}
use git_sty.Proxylab.Rio.Readn.{Reads, rio_readnb_lem}
use git_sty.Proxylab.Rio.Lines.{ReadsLine, rio_readlineb_lem}
use git_sty.Proxylab.Rio.Writen.{Unbroken, rio_writen_lem}

-- "ab", a signal, then "c\ndefg".
abbrev source : Source
source = chunk 97 (98 ∷ []) ∷ signal ∷ chunk 99 (10 ∷ 100 ∷ 101 ∷ 102 ∷ 103 ∷ []) ∷ []

abbrev reader : Rio
reader = rio_readinitb source

rio_readnb_lem_example : Reads rest 3 reader (rio_readnb 20 3 reader)
unfolding IsClean rio_readinitb contents
rio_readnb_lem_example = rio_readnb_lem 20 3 reader tt (omega arith)

rio_readlineb_lem_example : ReadsLine 9 1 [] (rest reader) (rio_readlineb 10 reader)
unfolding IsClean rio_readinitb contents
rio_readlineb_lem_example = rio_readlineb_lem 10 reader tt (omega arith)

rio_writen_lem_example :
    rio_writen (takes 0 ∷ stops ∷ []) (97 ∷ 98 ∷ 99 ∷ []) ≡ (97 ∷ 98 ∷ 99 ∷ [], true)
unfolding Unbroken
rio_writen_lem_example = rio_writen_lem (takes 0 ∷ stops ∷ []) (97 ∷ 98 ∷ 99 ∷ []) 0
