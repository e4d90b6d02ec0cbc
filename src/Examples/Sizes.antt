-- ===== src/Examples/Sizes.antt =====
-- Runs of the sizes of ABI types and of the mutability of functions.
use fe.Prelude.{◌≡◌, refl, false, some}
use fe.Abi.{AbiType, u_int, function, array, is_static, header_size, size}
use fe.Abi.Sizes.{IsPadded, is_some, size-header_size}

-- Three words.
abbrev words : AbiType
words = array (u_int 256) 3

words-size : size words ≡ some 96
unfolding size
words-size = refl

-- A function has a size of 24 bytes, and a header of 32.
function-size : size function ≡ some 24
unfolding size
function-size = refl

size-header_size_example :
    (is_some (size words) ≡ is_static words)
    × (IsPadded words → size words ≡ some (header_size words))
    × (is_static words ≡ false → header_size words ≡ 32)
size-header_size_example = size-header_size words
