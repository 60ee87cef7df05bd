-- ===== src/Tests/Weather.antt =====
-- Encoding a key with bytes that a URL reserves.
use night_watcher.Base.{◌≡◌, arith, codes}
use night_watcher.Weather.Url.{url_decode, url_decode-url_encode}
use night_watcher.Weather.{url_encode}

url_decode-url_encode_example : url_decode (url_encode (codes "a b%")) ≡ codes "a b%"
url_decode-url_encode_example =
    url_decode-url_encode (codes "a b%")
      (omega arith, (omega arith, (omega arith, (omega arith, tt))))
