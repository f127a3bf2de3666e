-- ===== src/Core/Packages.antt =====
-- The packages that the market's code stands on, together.
use pyserum.Solana.{PublicKeys, Programs}
use pyserum.Wallets.{Wallets}
use pyserum.Floats.{Floats}
use pyserum.Net.Client.{Texts, Client}

pub record Packages : Type 1 where
  pub keys : PublicKeys
  pub programs : Programs keys
  pub wallets : Wallets keys
  pub floats : Floats
  pub texts : Texts keys
  pub client : Client keys
