-- ===== src/OpenInterest/Cache/Tests.antt =====
-- Runs of internal/openinterest/livecache.go: a cache of two values that is given three.
use chomo_syncer_go.Base.{
  nat_eq, codes, text_eq, lookup, insert, delete, ℕ, ◌≡◌, refl, none, some, pos,
}
use chomo_syncer_go.OpenInterest.Cache.{LiveCache, new_cache, put, get}

abbrev three : LiveCache ℕ
three =
    put (codes "BTC") 900 30
      (put (codes "BTC") 300 10 (put (codes "BTC") 600 20 (new_cache (pos 2))))

oldest_gone : get (codes "BTC") 300 three ≡ none
unfolding get put new_cache lookup insert delete
oldest_gone = refl

newest_there : get (codes "BTC") 900 three ≡ some 30
unfolding get put new_cache lookup insert delete
newest_there = refl
