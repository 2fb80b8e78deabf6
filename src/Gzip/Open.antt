-- ===== src/Gzip/Open.antt =====
-- No field of the header leads to the end of the stream.
use teg.Prelude.{ℕ, ◌≢◌, arith}
use teg.Gzip.{done, after_comment, after_name, after_extra, after_fixed}

pub after_comment-open : (flags : ℕ) → after_comment flags ≢ done
unfolding after_comment
after_comment-open flags = ground arith

pub after_name-open : (flags : ℕ) → after_name flags ≢ done
unfolding after_name
after_name-open flags = ground (arith, after_comment-open flags)

pub after_extra-open : (flags : ℕ) → after_extra flags ≢ done
unfolding after_extra
after_extra-open flags = ground (arith, after_name-open flags)

pub after_fixed-open : (flags : ℕ) → after_fixed flags ≢ done
unfolding after_fixed
after_fixed-open flags = ground (arith, after_extra-open flags)
